-- ===== src/Integrity/Check.antt =====
-- `CheckSessionIntegrity` on what it finds in the session's directory. As in Frame, the checksum of the
-- contract is a parameter.
use local_pc.Common.{
  is_empty, ℕ, Bool, ◌||◌, ◌&&◌, not, Option, none, some, List, [], ◌∷◌, ◌==◌, if◌then◌else◌, inc64,
  add64,
}
use local_pc.Frame.Io.{count_contract_frames}

pub data IntegrityResult : Type 0 where
  ok warning failed : IntegrityResult

-- The texts of `detail`.
pub data Detail : Type 0 where
  directory_missing leftover_tmp_files manifest_or_index_missing : Detail
  invalid_frame_stream count_mismatch all_ok : Detail

pub record IntegrityReport : Type 0 where
  pub result : IntegrityResult
  pub detail : Detail

-- The directory: what exists, the lines of the index, and the contents of the files `ego_*.bin`, in the
-- order in which the directory lists them.
pub record SessionDir : Type 0 where
  pub is_there : Bool
  pub has_tmp_files : Bool
  pub has_manifest : Bool
  pub has_index : Bool
  pub index_lines : List (List ℕ)
  pub chunk_files : List (List ℕ)

-- Lines that are not empty.
unfoldable pub count_lines : ℕ → List (List ℕ) → ℕ
count_lines n [] = n
count_lines n (line ∷ lines) = count_lines (if is_empty line then n else inc64 n) lines

pub data Counted : Type 0 where
  invalid_stream : Counted
  counted : ℕ → Counted

module _ (crc32 : List ℕ → ℕ) (max_payload_bytes : ℕ) where
  -- The loop over the files. As in Frame, `none` is a walk that ran out of fuel.
  unfoldable pub count_files : ℕ → List (List ℕ) → Option Counted
  count_files file_packets [] = some (counted file_packets)
  count_files file_packets (bytes ∷ files) =
      elim (count_contract_frames crc32 bytes max_payload_bytes) [
        | none ↦ none
        | some count ↦
            let rest = count_files (add64 file_packets count) files in
            if count == 0 && not (is_empty bytes) then some invalid_stream else rest
      ]

  -- The verdict on the two counts.
  unfoldable pub compare_counts : ℕ → Counted → IntegrityReport
  compare_counts indexed_packets invalid_stream = record {
    result = failed;
    detail = invalid_frame_stream;
  }
  compare_counts indexed_packets (counted file_packets) =
      if indexed_packets == file_packets
      then record { result = ok; detail = all_ok }
      else record { result = warning; detail = count_mismatch }

  unfoldable pub check_session_integrity : SessionDir → Option IntegrityReport
  unfolding count_lines count_files compare_counts
  check_session_integrity dir =
      if not dir.is_there
      then some (record { result = failed; detail = directory_missing })
      else if dir.has_tmp_files
      then some (record { result = warning; detail = leftover_tmp_files })
      else if not dir.has_manifest || not dir.has_index
      then some (record { result = failed; detail = manifest_or_index_missing })
      else elim (count_files 0 dir.chunk_files) [
        | none ↦ none
        | some c ↦ some (compare_counts (count_lines 0 dir.index_lines) c)
      ]
