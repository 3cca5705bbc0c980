-- ===== src/Validate/Streams.antt =====
-- `LogValidator::validate_ego`, `validate_source` and `check_seq_gaps`. Differences of times are taken
-- exactly; the code's overflow when they do not fit 63 bits.
use local_pc.Common.{
  Bool, List, Option, [], add64, false, if◌then◌else◌, inc32, inc64, is_zero, leb, length, ltb,
  ltb_ℤ, negsuc, none, not, pos, some, sub32, sub_ℤ, suc, true, ℕ, ℤ, ◌%◌, ◌&&◌, ◌*◌, ◌++◌, ◌-◌,
  ◌/◌, ◌==◌, ◌^◌, ◌||◌, ◌∷◌,
}
use local_pc.Parse.Binary.{ParseStatus, crc_fail, ok, validate}
use local_pc.Validate.Types.{
  GapEvent, StreamId, StreamValidation, ValidatorConfig, audio_block, ego, ego_audio, ego_imu,
  error, file_truncated, gap, no_validation, seq, source, telemetry, timestamp, warning,
}
use local_pc.Load.Packets.{ChunkInfo, Files, Manifest, RawPacket, to_int64}
use local_pc.Load.Scan.{scan, scan_sources}
use local_pc.Wire.Structs.{field}

abbrev k_ns_per_ms : ℕ
k_ns_per_ms = 1_000_000

-- `static_cast<ns_t>(ms) * kNsPerMs`
abbrev pub ms_to_ns : ℤ → ℤ
ms_to_ns (pos n) = pos (n * k_ns_per_ms)
ms_to_ns (negsuc n) = negsuc (suc n * k_ns_per_ms - 1)

abbrev pub with_gap : StreamValidation → GapEvent → StreamValidation
with_gap sv g = record sv { gap_events = sv.gap_events ++ g ∷ [] }

-- The chunks that are missing. A file that exists is taken to be one that can be opened.
unfoldable pub check_files : Files → List ChunkInfo → StreamValidation → StreamValidation
check_files files [] sv = sv
check_files files (c ∷ chunks) sv = check_files files chunks (elim (files c.path) [
  | some bytes ↦ sv
  | none ↦ record sv { file_ok = false; file_errors = sv.file_errors ++ c.path ∷ [] }
])

-- A packet that fails its checks.
unfoldable pub note_invalid : ParseStatus → StreamValidation → StreamValidation
note_invalid crc_fail sv = record sv {
  packets_crc_failed = inc64 sv.packets_crc_failed;
  packets_lost = inc64 sv.packets_lost;
}
note_invalid _ sv = record sv { packets_lost = inc64 sv.packets_lost }

-- VL-03: a time of zero.
unfoldable pub check_zero : ℤ → StreamValidation → StreamValidation
check_zero ts sv =
    if is_zero ts
    then with_gap (record sv { timestamp_violations = inc64 sv.timestamp_violations })
        (gap ts ego timestamp error (pos 0))
    else sv

-- VL-04: a step back.
unfoldable pub check_monotonic : Bool → ℤ → ℤ → StreamValidation → StreamValidation
check_monotonic first_pkt prev_ts ts sv =
    if not first_pkt && ltb_ℤ ts prev_ts
    then with_gap (record sv { monotonic_violations = inc64 sv.monotonic_violations })
        (gap ts ego timestamp warning (sub_ℤ prev_ts ts))
    else sv

-- VL-03: a jump ahead.
unfoldable pub check_jump : ValidatorConfig → Bool → ℤ → ℤ → StreamValidation → StreamValidation
check_jump cfg first_pkt prev_ts ts sv =
    if not first_pkt && ltb_ℤ (ms_to_ns cfg.max_timestamp_jump_ms) (sub_ℤ ts prev_ts)
    then with_gap (record sv { timestamp_violations = inc64 sv.timestamp_violations })
        (gap ts ego timestamp warning (sub_ℤ ts prev_ts))
    else sv

-- The first and the last time.
unfoldable pub extend_range : Bool → ℤ → StreamValidation → StreamValidation
extend_range first_pkt ts sv = record sv {
  t_first_ns = if first_pkt || ltb_ℤ ts sv.t_first_ns then ts else sv.t_first_ns;
  t_last_ns = if ltb_ℤ sv.t_last_ns ts then ts else sv.t_last_ns;
}

-- The variables that the lambda of `validate_ego` captures.
pub record EgoScan : Type 0 where
  pub sv : StreamValidation
  pub first_pkt : Bool
  pub prev_ts : ℤ
  pub prev_audio_ts : ℤ
  pub nominal_audio_period_ns : ℕ
  pub prev_imu_ts : ℤ
  pub seq_ts_list : List (ℕ × ℤ)

abbrev pub start_ego : EgoScan
start_ego = record {
  sv = no_validation;
  first_pkt = true;
  prev_ts = pos 0;
  prev_audio_ts = pos 0;
  nominal_audio_period_ns = 0;
  prev_imu_ts = pos 0;
  seq_ts_list = [];
}

-- VL-05, the gap: the audio block before this one is too far away.
unfoldable pub check_audio_gap : ValidatorConfig → ℕ → ℤ → ℤ → StreamValidation → StreamValidation
check_audio_gap cfg nominal prev_audio_ts ts sv =
    if not (is_zero prev_audio_ts)
      && ltb 0 nominal
      && ltb_ℤ (cfg.audio_threshold nominal) (sub_ℤ ts prev_audio_ts)
    then with_gap (record sv { audio_gap_count = inc64 sv.audio_gap_count })
        (gap ts ego_audio audio_block warning (sub_ℤ ts prev_audio_ts))
    else sv

-- VL-05: `none` is the division by a sample rate of zero. The header of an audio block has 10 bytes.
unfoldable pub check_audio : ValidatorConfig → RawPacket → ℤ → EgoScan → Option EgoScan
unfolding check_audio_gap
check_audio cfg raw ts s =
    let rate = field 4 2 raw.payload in
    let period = field 4 6 raw.payload * 1_000_000_000 / rate in
    let nominal =
      if s.nominal_audio_period_ns == 0 then period % 2 ^ 32 else s.nominal_audio_period_ns in
    if not (raw.header.type == 1 && leb 10 (length raw.payload))
    then some s
    else if rate == 0
    then none
    else some (record s {
      sv = check_audio_gap cfg nominal s.prev_audio_ts ts s.sv;
      nominal_audio_period_ns = nominal;
      prev_audio_ts = ts;
    })

-- VL-06, the gap: the last IMU sample is too far away.
unfoldable pub check_imu_gap : ValidatorConfig → ℤ → ℤ → StreamValidation → StreamValidation
check_imu_gap cfg prev_imu_ts ts sv =
    if not (is_zero prev_imu_ts) && ltb_ℤ (ms_to_ns cfg.telemetry_gap_ms) (sub_ℤ ts prev_imu_ts)
    then with_gap (record sv { telemetry_gap_count = inc64 sv.telemetry_gap_count })
        (gap ts ego_imu telemetry warning (sub_ℤ ts prev_imu_ts))
    else sv

-- VL-06
unfoldable pub check_imu : ValidatorConfig → RawPacket → ℤ → EgoScan → EgoScan
unfolding check_imu_gap
check_imu cfg raw ts s =
    if raw.header.type == 3
    then record s { sv = check_imu_gap cfg s.prev_imu_ts ts s.sv; prev_imu_ts = ts }
    else s

-- The checks of the times, in their order.
unfoldable pub check_times : ValidatorConfig → EgoScan → ℤ → StreamValidation → StreamValidation
check_times cfg s ts sv = extend_range s.first_pkt ts (
    check_jump cfg s.first_pkt s.prev_ts ts (
      check_monotonic s.first_pkt s.prev_ts ts
        (check_zero ts (record sv { packets_valid = inc64 sv.packets_valid }))))

-- A packet that passes its checks.
unfoldable pub check_valid : ValidatorConfig → RawPacket → EgoScan → Option EgoScan
check_valid cfg raw s =
    let ts = to_int64 raw.header.ts_ns in
    let timed : EgoScan = record s {
      sv = check_times cfg s ts s.sv;
      seq_ts_list = s.seq_ts_list ++ (raw.header.seq, ts) ∷ [];
    } in
    elim (check_audio cfg raw ts timed) [
      | none ↦ none
      | some heard ↦ some (record (check_imu cfg raw ts heard) { prev_ts = ts; first_pkt = false })
    ]

-- The lambda: every packet is counted.
unfoldable pub check_ego_packet : ValidatorConfig → EgoScan → RawPacket → Option EgoScan
check_ego_packet cfg s raw =
    let sv : StreamValidation = record s.sv { packets_total = inc64 s.sv.packets_total } in
    elim (validate raw).status [
      | ok ↦ check_valid cfg raw (record s { sv = sv })
      | status ↦ some (record s {
        sv =
            with_gap (note_invalid status sv)
              (gap (to_int64 raw.header.ts_ns) ego file_truncated error (pos 0));
      })
    ]

-- A handler never asks to stop, and a crash ends it all.
unfoldable pub ego_handler : ValidatorConfig → Option EgoScan → RawPacket → Option EgoScan × Bool
ego_handler cfg none raw = (none, false)
ego_handler cfg (some s) raw = (check_ego_packet cfg s raw, true)

-- VL-02: a gap between neighbours. The numbers have 32 bits.
unfoldable pub check_seq_gap : StreamId → ℕ × ℤ → ℕ × ℤ → StreamValidation → StreamValidation
check_seq_gap stream_id (prev_seq, prev_ts) (actual, ts) sv =
    let expected = inc32 prev_seq in
    let lost = sub32 actual expected in
    if ltb expected actual
    then with_gap (record sv { packets_lost = add64 sv.packets_lost lost })
        (record {
          t_ns = ts;
          stream_id = stream_id;
          gap_type = seq;
          expected_seq = expected;
          actual_seq = actual;
          gap_duration_ns = sub_ℤ ts prev_ts;
          severity = if ltb 10 lost then error else warning;
        })
    else sv

unfoldable pub check_seq_gaps : StreamId → List (ℕ × ℤ) → StreamValidation → StreamValidation
check_seq_gaps stream_id [] sv = sv
check_seq_gaps stream_id (a ∷ []) sv = sv
check_seq_gaps stream_id (a ∷ b ∷ rest) sv =
    check_seq_gaps stream_id (b ∷ rest) (check_seq_gap stream_id a b sv)

-- VL-01: the packets that the manifest names and the scan has not seen.
unfoldable pub compare_with_manifest : Manifest → StreamValidation → StreamValidation
compare_with_manifest m sv =
    if ltb 0 m.packet_count && ltb sv.packets_valid m.packet_count
    then record sv { packets_lost = add64 sv.packets_lost (m.packet_count - sv.packets_valid) }
    else sv

-- `none` is the crash.
unfoldable pub finish_ego : Manifest → Option EgoScan → Option StreamValidation
finish_ego m none = none
finish_ego m (some s) = some (compare_with_manifest m (check_seq_gaps ego s.seq_ts_list s.sv))

unfoldable pub validate_ego : ValidatorConfig → Files → Manifest → Option StreamValidation
validate_ego cfg files m =
    let checked = check_files files m.chunks no_validation in
    if not checked.file_ok
    then some checked
    else elim (scan files m (ego_handler cfg) (some (record start_ego { sv = checked }))) [
      | none ↦ none
      | some s ↦ finish_ego m s
    ]

-- The variables that the lambda of `validate_source` captures.
pub record SourceScan : Type 0 where
  pub sv : StreamValidation
  pub first_pkt : Bool
  pub prev_ts : ℤ
  pub seq_ts_list : List (ℕ × ℤ)

abbrev pub start_source : SourceScan
start_source = record { sv = no_validation; first_pkt = true; prev_ts = pos 0; seq_ts_list = [] }

-- The checks of the times of a source, which make no events.
unfoldable pub count_times : SourceScan → ℤ → StreamValidation → StreamValidation
count_times s ts sv = extend_range s.first_pkt ts (record sv {
  packets_valid = inc64 sv.packets_valid;
  timestamp_violations =
      if is_zero ts then inc64 sv.timestamp_violations else sv.timestamp_violations;
  monotonic_violations =
      if not s.first_pkt && ltb_ℤ ts s.prev_ts
      then inc64 sv.monotonic_violations
      else sv.monotonic_violations;
})

unfoldable pub check_source_packet : SourceScan → RawPacket → SourceScan
check_source_packet s raw =
    let sv : StreamValidation = record s.sv { packets_total = inc64 s.sv.packets_total } in
    let ts = to_int64 raw.header.ts_ns in
    elim (validate raw).status [
      | ok ↦ record {
        sv = count_times s ts sv;
        first_pkt = false;
        prev_ts = ts;
        seq_ts_list = s.seq_ts_list ++ (raw.header.seq, ts) ∷ [];
      }
      | status ↦ record s { sv = note_invalid status sv }
    ]

unfoldable pub source_handler : SourceScan → RawPacket → SourceScan × Bool
source_handler s raw = (check_source_packet s raw, true)

unfoldable pub validate_source : Files → Manifest → Option StreamValidation
validate_source files m =
    let checked = check_files files m.chunks no_validation in
    if not checked.file_ok
    then some checked
    else elim (scan_sources source_handler files m.chunks (record start_source { sv = checked })) [
      | none ↦ none
      | some s ↦ some (check_seq_gaps source s.seq_ts_list s.sv)
    ]
