-- ===== src/Integrity/Tests.antt =====
-- A small session that passes its check, and directories that do not.
use local_pc.Common.{length, ◌%◌, ◌^◌, ◌↔◌}
use local_pc.Integrity.Recorded.{passed, with_lines}
use local_pc.Integrity.Check.{count_lines}
use local_pc.Common.{map, true, ◌++◌, ◌∷◌, ◌≢◌, ◌≡◌, refl, sym, subst, false, some, [], All}
use local_pc.Wire.Structs.{field}
use local_pc.Frame.Sample.{sample_frame, sample_frame-IsFrame}
use local_pc.Frame.Header.{decode_header}
use local_pc.Writer.Chunks.{
  append_contract_index, count_written, flush, flush_if_due, next_chunk, open_chunk, opened,
  put_frame, record_frame, rotate_if_needed, stream_write, write_contract_frame, init,
}
use local_pc.Writer.Print.{print_line}
use local_pc.Wire.Words.{le_value}
use local_pc.Crc.Runtime.{crc32}
use local_pc.Frame.Parse.{IsFrame}
use local_pc.Writer.Runs.{run}
use local_pc.Writer.Sample.{small_config, calls, calls_write}
use local_pc.Integrity.Check.{SessionDir, check_session_integrity, failed, directory_missing}
use local_pc.Integrity.Recorded.{IsDirOf, check-run}

abbrev no_dir : SessionDir
no_dir = record {
  is_there = false;
  has_tmp_files = false;
  has_manifest = false;
  has_index = false;
  index_lines = [];
  chunk_files = [];
}

missing :
    check_session_integrity crc32 8192 no_dir
    ≡ some (record { result = failed; detail = directory_missing })
unfolding check_session_integrity
missing = refl

abbrev session_dir : SessionDir
session_dir = record {
  is_there = true;
  has_tmp_files = false;
  has_manifest = true;
  has_index = true;
  index_lines = map print_line (run (init small_config 0) calls).0.index;
  chunk_files = (sample_frame ++ sample_frame) ∷ sample_frame ∷ [];
}

session_dir-IsDirOf : IsDirOf (run (init small_config 0) calls).0 session_dir
unfolding run write_contract_frame rotate_if_needed open_chunk opened put_frame stream_write
    decode_header field le_value next_chunk flush record_frame append_contract_index count_written
    flush_if_due
session_dir-IsDirOf = record {
  is_there = refl;
  no_tmp_files = refl;
  manifest = refl;
  index = refl;
  index_lines = refl;
  chunk_files = refl;
}

check-run_example :
    (check_session_integrity crc32 8192 session_dir ≡ passed)
    × ((check_session_integrity crc32 8192 (with_lines session_dir ((1 ∷ []) ∷ [] ∷ [])) ≡ passed)
        ↔ (count_lines 0 ((1 ∷ []) ∷ [] ∷ [])
            ≡ length (run (init small_config 0) calls).1 % 2 ^ 64))
check-run_example =
    check-run crc32 8192 small_config 0 calls session_dir ((1 ∷ []) ∷ [] ∷ [])
      ((refl, refl, refl), ((refl, refl, refl), ((refl, refl, refl), ((refl, refl, refl), tt))))
      (subst (λ t. t ≢ []) (sym calls_write) (λ e. absurd (cc)))
      (subst (λ t. All (IsFrame crc32 8192) t) (sym calls_write)
        (sample_frame-IsFrame, (sample_frame-IsFrame, (sample_frame-IsFrame, tt))))
      session_dir-IsDirOf
