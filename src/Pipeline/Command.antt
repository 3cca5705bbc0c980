-- ===== src/Pipeline/Command.antt =====
-- `Pipeline::run_validate`. A session is its files; the manifest is what the reading of `ego_manifest.json`
-- gives, if it does. The results are on two levels: `none` means that fuel ran out, and `some none` that the
-- program has crashed. Writing the report and the messages are left out.
use local_pc.Common.{
  codes, Bool, List, Option, [], false, if◌then◌else◌, none, some, true, ℕ, ℤ, ◌∷◌,
}
use local_pc.Validate.Ranges.{Integrity, TimeRange, compute_integrity, extract_valid_ranges, failed}
use local_pc.Pipeline.Feed.{ScanAccumulator, ego_feeder, new_accumulator, source_feeder}
use local_pc.Upload.Session.{ExitCode, success, validation_error}
use local_pc.Load.Scan.{scan, scan_sources}
use local_pc.Load.Packets.{Files, Manifest}
use local_pc.Validate.Types.{StreamValidation, ValidatorConfig, no_validation}

abbrev pub Scanned : Type 0
Scanned = Option (Option ScanAccumulator)

module _ (cfg : ValidatorConfig) (files : Files) where
  unfoldable pub scan_ego : Manifest → Scanned
  scan_ego m = elim m.chunks [
    | [] ↦ scan files m (ego_feeder cfg) (some (new_accumulator false))
    | c ∷ cs ↦ scan files m (ego_feeder cfg) (some (new_accumulator true))
  ]

  -- The source is one file, if it is there; the text stands for the message.
  abbrev pub no_source : ScanAccumulator
  no_source = record (new_accumulator false) {
    sv = record no_validation {
      file_ok = false;
      file_errors = codes "source.bin not found (optional — skipping)" ∷ [];
    };
  }

  unfoldable pub scan_source : List ℕ → Scanned
  scan_source src_bin = elim (files src_bin) [
    | none ↦ some (some no_source)
    | some bytes ↦
        scan_sources (source_feeder cfg) files (record { path = src_bin; chunk_id = 0 } ∷ [])
          (some (new_accumulator true))
  ]

  module _ (long_enough : ℤ → ℤ → Bool) (enough : List TimeRange → Bool) where
    -- The verdict of `build_report`.
    unfoldable pub verdict : StreamValidation → StreamValidation → Integrity
    verdict ego_val src_val =
        compute_integrity enough ego_val src_val (extract_valid_ranges long_enough ego_val src_val)

    unfoldable pub exit_code : Bool → Integrity → ExitCode
    exit_code fail_on_no_valid_ranges failed =
        if fail_on_no_valid_ranges then validation_error else success
    exit_code fail_on_no_valid_ranges _ = success

    -- What follows the scans.
    unfoldable pub conclude :
        Bool → Option ScanAccumulator → Option ScanAccumulator → Option ExitCode
    unfolding verdict exit_code
    conclude fail_on_no_valid_ranges none src = none
    conclude fail_on_no_valid_ranges (some ego_acc) none = none
    conclude fail_on_no_valid_ranges (some ego_acc) (some src_acc) =
        some (exit_code fail_on_no_valid_ranges (verdict ego_acc.sv src_acc.sv))

    unfoldable pub run_validate : Bool → Option Manifest → List ℕ → Option (Option ExitCode)
    unfolding conclude scan_ego scan_source
    run_validate fail_on_no_valid_ranges none src_bin = some (some validation_error)
    run_validate fail_on_no_valid_ranges (some m) src_bin =
        let source = scan_source src_bin in
        elim (scan_ego m) [
          | none ↦ none
          | some ego_acc ↦ elim source [
            | none ↦ none
            | some src_acc ↦ some (conclude fail_on_no_valid_ranges ego_acc src_acc)
          ]
        ]
