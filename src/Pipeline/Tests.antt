-- ===== src/Pipeline/Tests.antt =====
-- Sessions for the pipeline.
use local_pc.Common.{
  arith, Bool, List, Option, false, ltb_ℤ, ◌↔◌, pos, All, [], length, none, refl, some, subst, sym,
  true, ◌%◌, ◌^◌, ◌∷◌, ◌≡◌,
}
use local_pc.Pipeline.Recorded.{FrameRateFine, scan_ego-run}
use local_pc.Pipeline.Command.{run_validate, scan_source, scan_ego}
use local_pc.Pipeline.Exits.{IsRejected, run_validate_rejects}
use local_pc.Upload.Session.{ExitCode, validation_error}
use local_pc.Validate.Ranges.{TimeRange}
use local_pc.Writer.Chunks.{init}
use local_pc.Writer.Runs.{run}
use local_pc.Pipeline.Feed.{ScanAccumulator, feed, feed_audio, feed_valid, new_accumulator}
use local_pc.Pipeline.Verdict.{SameOutcome, scan_ego_agrees}
use local_pc.Parse.Sample.{sample_bytes}
use local_pc.Frame.Io.{header_matches, payload_matches, validate_contract_frame}
use local_pc.Frame.Sample.{sample_frame}
use local_pc.Frame.Parse.{IsFrame}
use local_pc.Frame.Header.{decode_header, encode_header}
use local_pc.Writer.Sample.{calls, calls_write, small_config}
use local_pc.Load.Sample.{sample_files, sample_manifest, stored}
use local_pc.Load.Scan.{detect_format, format_of, legacy}
use local_pc.Load.Packets.{Files, Manifest, RawPacket, no_contract_header, no_header}
use local_pc.Crc.Offline.{crc32, crc32_loop, crc32_table, entry_bit, entry_bits, fill_table}
use local_pc.Validate.Types.{ValidatorConfig}
use local_pc.Validate.Streams.{validate_ego}
use local_pc.Wire.Structs.{encode_fields, field}
use local_pc.Wire.Words.{le_bytes, le_value}
use local_pc.Crc.Offline

abbrev cfg : ValidatorConfig
cfg = record {
  max_timestamp_jump_ms = pos 5;
  telemetry_gap_ms = pos 5;
  audio_threshold = λ n. pos n;
}

-- A session of the older format, of one chunk.
abbrev old_files : Files
old_files path = some sample_bytes

abbrev old_manifest : Manifest
old_manifest = record { packet_count = 1; chunks = record { path = 0 ∷ []; chunk_id = 0 } ∷ [] }

old_format : format_of old_files old_manifest ≡ legacy
unfolding format_of detect_format field le_value
old_format = refl

scan_ego_agrees_example :
    SameOutcome cfg old_files old_manifest
      (validate_ego cfg old_files old_manifest)
      (scan_ego cfg old_files old_manifest)
scan_ego_agrees_example =
    scan_ego_agrees cfg old_files old_manifest old_format ((sample_bytes, refl), tt)

sample_frame-IsFrame : IsFrame Offline.crc32 8192 sample_frame
unfolding validate_contract_frame payload_matches header_matches decode_header field le_value
    encode_header encode_fields le_bytes Offline.crc32 crc32_loop crc32_table fill_table entry_bits
    entry_bit
sample_frame-IsFrame = refl

-- The frame has another type.
sample_frame-FrameRateFine : FrameRateFine sample_frame
unfolding decode_header field le_value
sample_frame-FrameRateFine e l = absurd (omega arith)

scan_ego-run_example :
    (a : ScanAccumulator) × (scan_ego cfg sample_files sample_manifest ≡ some (some a))
    × (a.sv.packets_total ≡ length (run (init small_config 0) calls).1 % 2 ^ 64)
    × (a.sv.packets_valid ≡ length (run (init small_config 0) calls).1 % 2 ^ 64)
    × (a.sv.packets_crc_failed ≡ 0)
scan_ego-run_example =
    scan_ego-run 8192 small_config 0 calls cfg sample_files sample_manifest
      (refl, (refl, (refl, (refl, tt))))
      (subst (λ t. All (IsFrame Offline.crc32 8192) t) (sym calls_write)
        (sample_frame-IsFrame, (sample_frame-IsFrame, (sample_frame-IsFrame, tt))))
      (subst (λ t. All FrameRateFine t) (sym calls_write)
        (
          sample_frame-FrameRateFine,
          (sample_frame-FrameRateFine, (sample_frame-FrameRateFine, tt)),
        ))
      stored

-- The frame of a started session, of type 1, with ten bytes of zero: the scan takes it for an audio block.
abbrev started : RawPacket
started = record {
  header = record no_header { type = 1; payload_size = 10; ts_ns = 5 };
  contract_header = no_contract_header;
  is_contract = true;
  payload = 0 ∷ 0 ∷ 0 ∷ 0 ∷ 0 ∷ 0 ∷ 0 ∷ 0 ∷ 0 ∷ 0 ∷ [];
  chunk_id = 0;
  file_offset = 0;
}

crash : feed cfg (new_accumulator true) started true ≡ none
unfolding feed feed_valid feed_audio field le_value
crash = refl

abbrev any_range : List TimeRange → Bool
any_range [] = false
any_range (r ∷ rs) = true

run_validate_rejects_example :
    (o o' : Option ScanAccumulator) × (scan_ego cfg old_files old_manifest ≡ some o)
    × (scan_source cfg old_files [] ≡ some o')
    × ((outcome : Option ExitCode) × (run_validate cfg old_files ltb_ℤ any_range true
            (some old_manifest)
            []
          ≡ some outcome))
    × ((run_validate cfg old_files ltb_ℤ any_range true (some old_manifest) []
          ≡ some (some validation_error))
        ↔ IsRejected cfg old_files ltb_ℤ any_range true old_manifest [] o o')
run_validate_rejects_example =
    run_validate_rejects cfg old_files ltb_ℤ any_range true old_manifest []
