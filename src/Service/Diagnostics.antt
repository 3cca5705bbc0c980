-- ===== src/Service/Diagnostics.antt =====
-- `DiagnosticsCollector`, without the two measured rates, which are floating point, and the status of the
-- ADSP, which nothing sets. The reasons of bad packets are the errors of ValidateContractFrame.
use local_pc.Common.{ℕ, List, [], ◌∷◌, if◌then◌else◌, ◌==◌, inc64, add64}
use local_pc.Frame.Io.{
  FrameError, truncated_frame_header, bad_magic_or_size, payload_too_large, truncated_frame_payload,
  frame_too_short, bad_header, frame_size_mismatch, payload_crc_mismatch, header_crc_mismatch,
}

pub data Health : Type 0 where
  ok degraded failed : Health

pub record Diagnostics : Type 0 where
  pub packets_received : ℕ
  pub packets_written : ℕ
  pub bad_packets : ℕ
  pub seq_gaps : ℕ
  pub packets_lost : ℕ
  pub out_of_order : ℕ
  pub time_gaps : ℕ
  pub buffer_dropped : ℕ
  pub bytes_written : ℕ
  pub health : Health
  pub reject_by_reason : List (FrameError × ℕ)

abbrev pub init : Diagnostics
init = record {
  packets_received = 0;
  packets_written = 0;
  bad_packets = 0;
  seq_gaps = 0;
  packets_lost = 0;
  out_of_order = 0;
  time_gaps = 0;
  buffer_dropped = 0;
  bytes_written = 0;
  health = ok;
  reject_by_reason = [];
}

-- The place of an error's text among the texts, to compare two of them.
abbrev error_code : FrameError → ℕ
error_code truncated_frame_header = 0
error_code bad_magic_or_size = 1
error_code payload_too_large = 2
error_code truncated_frame_payload = 3
error_code frame_too_short = 4
error_code bad_header = 5
error_code frame_size_mismatch = 6
error_code payload_crc_mismatch = 7
error_code header_crc_mismatch = 8

-- `reject_by_reason_[reason]++`, which begins at 0 for a new reason.
unfoldable pub count_reason : List (FrameError × ℕ) → FrameError → List (FrameError × ℕ)
count_reason [] reason = (reason, 1) ∷ []
count_reason ((r, n) ∷ rs) reason =
    let rest = count_reason rs reason in
    if error_code r == error_code reason then (r, inc64 n) ∷ rs else (r, n) ∷ rest

unfoldable pub on_packet_received : Diagnostics → Diagnostics
on_packet_received d = record d { packets_received = inc64 d.packets_received }

unfoldable pub on_packet_written : Diagnostics → ℕ → Diagnostics
on_packet_written d bytes = record d {
  packets_written = inc64 d.packets_written;
  bytes_written = add64 d.bytes_written bytes;
}

unfoldable pub on_bad_packet : Diagnostics → FrameError → Diagnostics
unfolding count_reason
on_bad_packet d reason = record d {
  bad_packets = inc64 d.bad_packets;
  reject_by_reason = count_reason d.reject_by_reason reason;
}

unfoldable pub on_time_gap : Diagnostics → Diagnostics
on_time_gap d = record d { time_gaps = inc64 d.time_gaps }

unfoldable pub on_seq_gap : Diagnostics → ℕ → Diagnostics
on_seq_gap d lost = record d {
  seq_gaps = inc64 d.seq_gaps;
  packets_lost = add64 d.packets_lost lost;
}

unfoldable pub on_out_of_order : Diagnostics → Diagnostics
on_out_of_order d = record d { out_of_order = inc64 d.out_of_order }

unfoldable pub set_buffer_dropped : Diagnostics → ℕ → Diagnostics
set_buffer_dropped d dropped = record d { buffer_dropped = dropped }

unfoldable pub set_health : Diagnostics → Health → Diagnostics
set_health d health = record d { health = health }
