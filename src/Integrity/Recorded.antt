-- ===== src/Integrity/Recorded.antt =====
-- A session recorded without failures passes its check.
use local_pc.Integrity.Listed.{Listed, Listed-Logged, NoFailure}
use local_pc.Integrity.Counts.{count_files-join, count_lines_full, lines_not_empty}
use local_pc.Common.{
  Option, ◌↔◌, All-split, if◌then◌else◌, ℕ, ◌%◌, ◌^◌, ◌≡◌, refl, sym, ap, ap₂, ◌∙◌, subst, arith,
  true, false, some, List, [], ◌∷◌, ◌++◌, map, length, All, ◌≢◌, Bool-cases, inl, inr,
}
use mathlib.Core.List.{append-nil}
use local_pc.Frame.Round.{concat}
use local_pc.Frame.Parse.{IsFrame}
use local_pc.Writer.Chunks.{ChunkWriter, RuntimeConfig, World, IndexLine, init}
use local_pc.Writer.Runs.{run, run-keeps}
use local_pc.Writer.Contents.{map-snoc, join-snoc, Whole, Holds, run-Holds, join}
use local_pc.Writer.Places.{files}
use local_pc.Writer.Print.{print_line}
use local_pc.Integrity.Check.{
  IntegrityReport, SessionDir, ok, all_ok, counted, count_lines, count_files, compare_counts,
  check_session_integrity,
}

-- The directory of a session after `Close`, which has renamed the last `ego_manifest.json.tmp`. There is
-- an index if it could be opened, and a chunk's file for each one that could be opened.
pub record IsDirOf (w : ChunkWriter) (dir : SessionDir) : Type 0 where
  pub is_there : dir.is_there ≡ true
  pub no_tmp_files : dir.has_tmp_files ≡ false
  pub manifest : dir.has_manifest ≡ true
  pub index : dir.has_index ≡ w.index_open
  pub index_lines : dir.index_lines ≡ map print_line w.index
  pub chunk_files : dir.chunk_files ≡ (if w.is_open then files w else w.earlier)

abbrev pub passed : Option IntegrityReport
passed = some (record { result = ok; detail = all_ok })

-- The directory with other lines in its index.
abbrev pub with_lines : SessionDir → List (List ℕ) → SessionDir
with_lines dir lines = record dir { index_lines = lines }

compare_counts_iff :
    (crc32 : List ℕ → ℕ) (max n k : ℕ)
    → (some (compare_counts crc32 max n (counted k)) ≡ passed) ↔ (n ≡ k)
unfolding compare_counts
compare_counts_iff crc32 max n k = ground arith

-- The check looks at the files of the chunks and at the number of lines.
check_lines :
    (crc32 : List ℕ → ℕ) (max n : ℕ) (w : ChunkWriter) (dir : SessionDir) (lines : List (List ℕ))
    → IsDirOf w dir
    → w.index_open ≡ true
    → count_files crc32 max 0 dir.chunk_files ≡ some (counted n)
    → check_session_integrity crc32 max (with_lines dir lines)
      ≡ some (compare_counts crc32 max (count_lines 0 lines) (counted n))
unfolding check_session_integrity
check_lines crc32 max n w dir lines d o f =
    ground (arith, d.is_there, d.no_tmp_files, d.manifest, d.index, o, f)

All-join :
    (P : List ℕ → Type 0) (groups : List (List (List ℕ))) → All P (join groups) → All (All P) groups
All-join P [] h = tt
All-join P (g ∷ groups) h =
    let (hg, hs) = All-split P g (join groups) h in (hg, All-join P groups hs)

length-map : (lines : List IndexLine) → length (map print_line lines) ≡ length lines
length-map [] = refl
length-map (l ∷ lines) = omega (arith, length-map lines)

NoFailure-Whole :
    (calls : List (World × List ℕ)) → All (λ c. NoFailure c.0) calls → All (λ c. Whole c.0) calls
NoFailure-Whole [] h = tt
NoFailure-Whole (c ∷ calls) (h, hs) = (h.0, NoFailure-Whole calls hs)

-- The files hold groups of frames, in order.
files_grouped :
    (written : List (List ℕ)) (w : ChunkWriter)
    → Holds written w
    → (groups : List (List (List ℕ))) × (join groups ≡ written)
      × ((if w.is_open then files w else w.earlier) ≡ map concat groups)
files_grouped written w h = elim (Bool-cases w.is_open) [
  | inl e ↦ (
    h.groups ++ h.current ∷ [],
    join-snoc h.groups h.current ∙ h.all,
    ap (λ b. if b then files w else w.earlier) e
        ∙ ap₂ (λ a b. a ++ b ∷ []) h.earlier h.file
        ∙ sym (map-snoc h.groups h.current),
  )
  | inr e ↦ (
    h.groups,
    sym (append-nil (join h.groups)) ∙ ap (λ t. join h.groups ++ t) (sym (h.closed e)) ∙ h.all,
    ap (λ b. if b then files w else w.earlier) e ∙ h.earlier,
  )
]

passes :
    (crc32 : List ℕ → ℕ) (max : ℕ) (w : ChunkWriter) (dir : SessionDir) (written : List (List ℕ))
    (lines : List (List ℕ))
    → Holds written w
    → Listed written w
    → IsDirOf w dir
    → written ≢ []
    → All (IsFrame crc32 max) written
    → (check_session_integrity crc32 max dir ≡ passed)
      × ((check_session_integrity crc32 max (with_lines dir lines) ≡ passed)
          ↔ (count_lines 0 lines ≡ length written % 2 ^ 64))
passes crc32 max w dir written lines h l d some_written valid =
    let (groups, in_order, there) = files_grouped written w h in
    let frames =
      All-join (IsFrame crc32 max) groups
        (subst (λ t. All (IsFrame crc32 max) t) (sym in_order) valid) in
    let n = length written % 2 ^ 64 in
    let counted_files : count_files crc32 max 0 dir.chunk_files ≡ some (counted n) =
      ap (λ t. count_files crc32 max 0 t) (d.chunk_files ∙ there)
      ∙ count_files-join crc32 max 0 groups frames (omega arith)
      ∙ ap (λ t. some (counted (t % 2 ^ 64)))
          (omega (arith, ap (λ (t : List (List ℕ)). length t) in_order)) in
    let check = λ (ls : List (List ℕ)).
      check_lines crc32 max n w dir ls d (l.there some_written) counted_files in
    let listed : count_lines 0 dir.index_lines ≡ n =
      ap (λ t. count_lines 0 t) d.index_lines
      ∙ count_lines_full 0 (map print_line w.index) (lines_not_empty w.index) (omega arith)
      ∙ omega (arith, length-map w.index, l.lines) in
    (
      check dir.index_lines
          ∙ (compare_counts_iff crc32 max (count_lines 0 dir.index_lines) n).1 listed,
      subst (λ r. (r ≡ passed) ↔ (count_lines 0 lines ≡ n)) (sym (check lines))
          (compare_counts_iff crc32 max (count_lines 0 lines) n),
    )

-- A session of at least one frame that was recorded without failed writes and openings of the index, of
-- frames that `ValidateContractFrame` accepts, passes `CheckSessionIntegrity` on the directory that
-- `Close` leaves. With any other lines in the index it passes exactly when as many of them as there are
-- frames, modulo 2 ^ 64, are not empty.
pub check-run :
    (crc32 : List ℕ → ℕ) (max : ℕ) (config : RuntimeConfig) (now : ℕ)
    (calls : List (World × List ℕ)) (dir : SessionDir) (lines : List (List ℕ))
    → All (λ c. NoFailure c.0) calls
    → (run (init config now) calls).1 ≢ []
    → All (IsFrame crc32 max) (run (init config now) calls).1
    → IsDirOf (run (init config now) calls).0 dir
    → (check_session_integrity crc32 max dir ≡ passed)
      × ((check_session_integrity crc32 max (with_lines dir lines) ≡ passed)
          ↔ (count_lines 0 lines ≡ length (run (init config now) calls).1 % 2 ^ 64))
check-run crc32 max config now calls dir lines fine some_written valid d =
    passes crc32 max _ dir (run (init config now) calls).1 lines
      (run-Holds config now calls (NoFailure-Whole calls fine))
      (run-keeps NoFailure Listed Listed-Logged [] (init config now) calls fine (record {
        good = refl;
        opens = λ c. absurd (cc);
        there = λ n. absurd (n refl);
        lines = refl;
      }))
      d some_written valid
