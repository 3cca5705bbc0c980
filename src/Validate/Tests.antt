-- ===== src/Validate/Tests.antt =====
-- A chunk of two packets of the ego stream, with a gap in their numbers, and its validation.
use local_pc.Validate.Reports.{gaps_in, packets_for, IsReport, validate_ego-IsReport}
use local_pc.Validate.Seen.{refusals, stamps}
use local_pc.Validate.Sound.{RateFine}
use local_pc.Load.Loop.{packets_in}
use local_pc.Load.Visits.{packets_of, packets_of_chunks}
use local_pc.Common.{
  All, Bool, List, Option, [], arith, ltb_ℤ, none, pos, refl, some, ℕ, ℤ, ◌%◌, ◌*◌, ◌+◌, ◌-◌, ◌/◌,
  ◌^◌, ◌∷◌, ◌≡◌, ◌≢◌,
}
use local_pc.Validate.Ranges.{
  Stream, both, build_ranges, combined_ranges, error_times, extract_valid_ranges, insert_time,
  intersect, intersect_one, range, sort_times, split_at,
}
use local_pc.Validate.Types.{
  StreamValidation, ValidatorConfig, ego, error, file_truncated, gap, no_validation,
}
use local_pc.Parse.Binary.{validate, validate_status}
use local_pc.Load.Scan.{
  detect_format, fetch_legacy, format_of, loop, scan, scan_chunk, scan_chunks, scan_legacy_chunk,
}
use local_pc.Load.Packets.{Files, Manifest, decode_packet_header}
use local_pc.Crc.Offline.{crc32, crc32_loop, crc32_table, entry_bit, entry_bits, fill_table}
use local_pc.Validate.Sequence.{check_seq_gaps_add_up}
use local_pc.Validate.Streams.{
  check_audio, check_ego_packet, check_files, check_imu, check_jump, check_monotonic, check_seq_gap,
  check_seq_gaps, check_times, check_valid, check_zero, compare_with_manifest, ego_handler,
  extend_range, finish_ego, validate_ego,
}
use local_pc.Validate.Clean.{ClearOf, extract_valid_ranges-ClearOf}
use local_pc.Wire.Structs.{field}
use local_pc.Wire.Words.{le_value}

-- An audio block and an IMU sample, with the sequence numbers 1 and 3.
abbrev ego_chunk : List ℕ
ego_chunk =
    72 ∷ 79 ∷ 87 ∷ 69 ∷ 1 ∷ 0 ∷ 1 ∷ 0 ∷ 1 ∷ 0 ∷ 12 ∷ 0 ∷ 0 ∷ 0 ∷ 232 ∷ 3 ∷ 0 ∷ 0 ∷ 0 ∷ 0 ∷ 0 ∷ 0 ∷ 1
    ∷ 0 ∷ 0 ∷ 0 ∷ 0 ∷ 0 ∷ 0 ∷ 0 ∷ 169 ∷ 129 ∷ 88 ∷ 39 ∷ 1 ∷ 16 ∷ 64 ∷ 31 ∷ 0 ∷ 0 ∷ 1 ∷ 0 ∷ 0 ∷ 0 ∷ 7
    ∷ 0 ∷ 72 ∷ 79 ∷ 87 ∷ 69 ∷ 1 ∷ 0 ∷ 1 ∷ 0 ∷ 3 ∷ 0 ∷ 2 ∷ 0 ∷ 0 ∷ 0 ∷ 208 ∷ 7 ∷ 0 ∷ 0 ∷ 0 ∷ 0 ∷ 0
    ∷ 0 ∷ 3 ∷ 0 ∷ 0 ∷ 0 ∷ 0 ∷ 0 ∷ 0 ∷ 0 ∷ 146 ∷ 66 ∷ 204 ∷ 182 ∷ 1 ∷ 2 ∷ []

abbrev ego_files : Files
ego_files path = some ego_chunk

-- The manifest knows of the packet that is missing.
abbrev ego_manifest : Manifest
ego_manifest = record { packet_count = 3; chunks = record { path = 0 ∷ []; chunk_id = 0 } ∷ [] }

abbrev config : ValidatorConfig
config = record {
  max_timestamp_jump_ms = pos 1000;
  telemetry_gap_ms = pos 50;
  audio_threshold = λ n. pos (n * 3 / 2);
}

rates :
    All
      (All RateFine)
      (packets_of_chunks ego_files (format_of ego_files ego_manifest) ego_manifest.chunks)
unfolding packets_of_chunks packets_of packets_in format_of detect_format fetch_legacy
    decode_packet_header field le_value
rates = (((λ t l e. cc), ((λ t l e. cc), tt)), tt)

validate_ego-IsReport_example :
    (sv : StreamValidation) × (validate_ego config ego_files ego_manifest ≡ some sv)
    × IsReport
        (stamps (packets_for ego_files ego_manifest))
        (refusals (packets_for ego_files ego_manifest))
        (gaps_in (stamps (packets_for ego_files ego_manifest)))
        sv
validate_ego-IsReport_example =
    validate_ego-IsReport config ego_files ego_manifest ((ego_chunk, refl), tt) rates

abbrev lost : Option StreamValidation → ℕ
lost none = 0
lost (some sv) = sv.packets_lost

-- One packet is missing, and two are counted as lost: by the gap, and by the manifest.
lost_twice : lost (validate_ego config ego_files ego_manifest) ≡ 2
unfolding validate_ego check_files scan scan_chunks scan_chunk scan_legacy_chunk loop fetch_legacy
    format_of detect_format decode_packet_header field le_value ego_handler check_ego_packet
    validate validate_status crc32 crc32_table crc32_loop fill_table entry_bits entry_bit
    check_valid check_times check_zero check_monotonic check_jump extend_range check_audio check_imu
    finish_ego check_seq_gaps check_seq_gap compare_with_manifest
lost_twice = refl

check_seq_gaps_add_up_example :
    ((check_seq_gaps ego ((1, pos 5) ∷ (4, pos 6) ∷ (5, pos 7) ∷ []) no_validation).packets_lost
        + 2)
      % 2 ^ 64
    ≡ (0 + (5 - 1)) % 2 ^ 64
check_seq_gaps_add_up_example =
    check_seq_gaps_add_up ego (1, pos 5) ((4, pos 6) ∷ (5, pos 7) ∷ []) no_validation (omega arith)

-- A stream from 10 to 50, and an error at 30.
abbrev sample_stream : StreamValidation
sample_stream = record no_validation {
  t_first_ns = pos 10;
  t_last_ns = pos 50;
  gap_events = gap (pos 30) ego file_truncated error (pos 0) ∷ [];
}

abbrev positive : ℤ → ℤ → Bool
positive a b = ltb_ℤ a b

extract_valid_ranges-ClearOf_example :
    All
      (ClearOf (error_times sample_stream.gap_events))
      (extract_valid_ranges positive sample_stream sample_stream)
    × (combined_ranges positive sample_stream sample_stream ≢ []
        → All
            (ClearOf (error_times sample_stream.gap_events))
            (extract_valid_ranges positive sample_stream sample_stream))
extract_valid_ranges-ClearOf_example =
    extract_valid_ranges-ClearOf positive sample_stream sample_stream

two_ranges :
    extract_valid_ranges positive sample_stream sample_stream
    ≡ range (pos 10) (pos 30) both ∷ range (pos 30) (pos 50) both ∷ []
unfolding extract_valid_ranges combined_ranges intersect intersect_one build_ranges split_at
    sort_times insert_time error_times
two_ranges = refl

-- An error behind the last valid packet makes a range that goes on to it.
abbrev late_error : StreamValidation
late_error = record sample_stream {
  gap_events = gap (pos 90) ego file_truncated error (pos 0) ∷ [];
}

beyond_the_last :
    build_ranges positive late_error Stream.ego ≡ range (pos 10) (pos 90) Stream.ego ∷ []
unfolding build_ranges split_at sort_times insert_time error_times
beyond_the_last = refl
