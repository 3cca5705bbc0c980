-- ===== src/Validate/Types.antt =====
-- offline/include/ego_offline/validate/log_validator.hpp: gaps and the result of a stream.
use local_pc.Common.{Bool, List, [], pos, true, ℕ, ℤ}

pub data GapType : Type 0 where
  seq timestamp audio_block telemetry file_truncated : GapType

pub data GapSeverity : Type 0 where
  info warning error : GapSeverity

-- The texts of `stream_id`.
pub data StreamId : Type 0 where
  ego ego_audio ego_imu source : StreamId

pub record GapEvent : Type 0 where
  pub t_ns : ℤ
  pub stream_id : StreamId
  pub gap_type : GapType
  pub expected_seq : ℕ
  pub actual_seq : ℕ
  pub gap_duration_ns : ℤ
  pub severity : GapSeverity

-- The file errors are the paths of the missing chunks.
pub record StreamValidation : Type 0 where
  pub file_ok : Bool
  pub packets_total : ℕ
  pub packets_valid : ℕ
  pub packets_lost : ℕ
  pub packets_crc_failed : ℕ
  pub timestamp_violations : ℕ
  pub monotonic_violations : ℕ
  pub audio_gap_count : ℕ
  pub telemetry_gap_count : ℕ
  pub t_first_ns : ℤ
  pub t_last_ns : ℤ
  pub file_errors : List (List ℕ)
  pub gap_events : List GapEvent

-- `StreamValidation sv;`
abbrev pub no_validation : StreamValidation
no_validation = record {
  file_ok = true;
  packets_total = 0;
  packets_valid = 0;
  packets_lost = 0;
  packets_crc_failed = 0;
  timestamp_violations = 0;
  monotonic_violations = 0;
  audio_gap_count = 0;
  telemetry_gap_count = 0;
  t_first_ns = pos 0;
  t_last_ns = pos 0;
  file_errors = [];
  gap_events = [];
}

-- `GapEvent g;` with what is set of it in the checks of a packet.
abbrev pub gap : ℤ → StreamId → GapType → GapSeverity → ℤ → GapEvent
gap t_ns stream_id gap_type severity duration = record {
  t_ns = t_ns;
  stream_id = stream_id;
  gap_type = gap_type;
  expected_seq = 0;
  actual_seq = 0;
  gap_duration_ns = duration;
  severity = severity;
}

-- What the validator reads of the configuration. `audio_threshold` is the cast of
-- `audio_gap_factor * nominal_audio_period_ns`, which is a product of floating point.
pub record ValidatorConfig : Type 0 where
  pub max_timestamp_jump_ms : ℤ
  pub telemetry_gap_ms : ℤ
  pub audio_threshold : ℕ → ℤ
