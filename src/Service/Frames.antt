-- ===== src/Service/Frames.antt =====
-- `RuntimeService::OnContractFrame`. The codes of the frame types are those of the contract, which
-- ego_contract_protocol.hpp repeats.
use local_pc.Common.{
  ℕ, Bool, true, false, ◌&&◌, not, none, some, List, [], ◌∷◌, length, ◌==◌, if◌then◌else◌,
}
use local_pc.Frame.Header.{EgoFrameHeader, decode_header, type_code, session_started, session_ended}
use local_pc.Frame.Io.{validate_contract_frame}
use local_pc.Buffer.Packets.{PacketBuffer, push}
use local_pc.Session.Manager.{Text, SessionState, idle, recording, state_of}
use local_pc.Writer.Chunks.{ChunkWriter, World, write_contract_frame}
use local_pc.Service.Diagnostics.{
  degraded, on_bad_packet, on_packet_received, on_packet_written, set_buffer_dropped, set_health,
}
use local_pc.Service.Track.{track_contract_seq, track_time}
use local_pc.Service.Runtime.{Service, Moment, with_diagnostics, start_recording, stop_recording}

abbrev session_ended_text : Text
session_ended_text = 115 ∷ 101 ∷ 115 ∷ 115 ∷ 105 ∷ 111 ∷ 110 ∷ 95 ∷ 101 ∷ 110 ∷ 100 ∷ 101 ∷ 100 ∷ []

abbrev is_recording : SessionState → Bool
is_recording recording = true
is_recording other = false

abbrev is_idle : SessionState → Bool
is_idle idle = true
is_idle other = false

-- The automatic start.
unfoldable pub start_if_asked : Service → EgoFrameHeader → Moment → Service
start_if_asked s header m =
    if s.config.auto_start_on_session_started
      && (is_idle (state_of s.sessions) && header.frame_type == type_code session_started)
    then (start_recording s s.config.default_scenario m).0
    else s

-- The counters and the tracking.
unfoldable pub note_frame : Service → EgoFrameHeader → Service
note_frame s header =
    let counted = record s.tracker { diagnostics = on_packet_received s.tracker.diagnostics } in
    record s {
      tracker =
          track_time (track_contract_seq counted header.seq) s.config.time_gap_threshold_ms
            header.t0_ns;
    }

-- The buffer takes the frame, and the diagnostics what it has dropped.
unfoldable pub buffer_frame : Service → PacketBuffer → List ℕ → Service
buffer_frame s b frame_bytes =
    let b' = push b frame_bytes in
    let d = set_buffer_dropped s.tracker.diagnostics b'.dropped in
    with_diagnostics (record s { buffer = some b' })
      (if b'.degraded then set_health d degraded else d)

-- In the file mode the frame goes to the writer.
unfoldable pub write_frame : Service → ChunkWriter → World → List ℕ → Service
write_frame s w io frame_bytes =
    let (w', written) = write_contract_frame w io frame_bytes in
    let s' : Service = record s { writer = some w' } in
    if written
    then with_diagnostics s' (on_packet_written s.tracker.diagnostics (length frame_bytes))
    else s'

unfoldable pub offer_frame : Service → List ℕ → Service
offer_frame s frame_bytes = elim s.buffer [ none ↦ s | some b ↦ buffer_frame s b frame_bytes ]

-- Where the frame of a recording goes.
unfoldable pub keep_frame : Service → World → List ℕ → Service
keep_frame s io frame_bytes =
    if not (is_recording (state_of s.sessions)) then s else elim s.writer [
      | none ↦ offer_frame s frame_bytes
      | some w ↦
          if s.sync_file_mode then write_frame s w io frame_bytes else offer_frame s frame_bytes
    ]

module _ (crc32 : List ℕ → ℕ) where
  -- A frame that has passed its validation.
  unfoldable pub on_valid_frame : Service → List ℕ → Moment → Service
  unfolding start_if_asked note_frame keep_frame
  on_valid_frame s frame_bytes m =
      let header = decode_header frame_bytes in
      let s' = start_if_asked s header m in
      if header.frame_type == type_code session_ended && is_recording (state_of s'.sessions)
      then (stop_recording s' session_ended_text m).0
      else keep_frame (note_frame s' header) (m.write_answer 0) frame_bytes

  unfoldable pub on_contract_frame : Service → List ℕ → Moment → Service
  unfolding on_valid_frame
  on_contract_frame s frame_bytes m =
      elim (validate_contract_frame crc32 frame_bytes s.config.max_payload_bytes) [
        | some e ↦ with_diagnostics s (on_bad_packet s.tracker.diagnostics e)
        | none ↦ on_valid_frame s frame_bytes m
      ]
