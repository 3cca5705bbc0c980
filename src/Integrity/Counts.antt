-- ===== src/Integrity/Counts.antt =====
-- What the check counts in the files and in the index.
use local_pc.Common.{
  is_empty, if◌then◌else◌, ℕ, ◌+◌, ◌%◌, ◌^◌, ◌<◌, ◌≡◌, refl, ap, ◌∙◌, arith, false, some, List, [],
  ◌∷◌, ◌++◌, map, length, length-append, All, add64, inc64, ◌==◌, not, ◌&&◌,
}
use local_pc.Frame.Io.{count_contract_frames}
use local_pc.Frame.Round.{concat}
use local_pc.Frame.Walk.{count-concat}
use local_pc.Frame.Parse.{IsFrame}
use local_pc.Writer.Chunks.{IndexLine}
use local_pc.Writer.Contents.{join}
use local_pc.Writer.Print.{print_line}
use local_pc.Integrity.Check.{counted, count_lines, count_files}

pub count_lines_full :
    (n : ℕ) (lines : List (List ℕ))
    → All (λ l. is_empty l ≡ false) lines
    → n < 2 ^ 64
    → count_lines n lines ≡ (n + length lines) % 2 ^ 64
unfolding count_lines
count_lines_full n [] h k = omega arith
count_lines_full n (l ∷ lines) (e, h) k =
    ap (λ b. count_lines (if b then n else inc64 n) lines) e
    ∙ count_lines_full (inc64 n) lines h (omega arith)
    ∙ omega arith

module _ (crc32 : List ℕ → ℕ) (max : ℕ) where
  count_files_step :
      (n count : ℕ) (bytes : List ℕ) (rest : List (List ℕ))
      → count_contract_frames crc32 bytes max ≡ some count
      → (count == 0 && not (is_empty bytes)) ≡ false
      → count_files crc32 max n (bytes ∷ rest) ≡ count_files crc32 max (add64 n count) rest
  unfolding count_files
  count_files_step n count bytes rest e h = ground arith

  -- A file of frames is empty when it has none.
  file_passes : (g : List (List ℕ)) → (length g == 0 && not (is_empty (concat g))) ≡ false
  file_passes [] = refl
  file_passes (f ∷ g) = ground arith

  -- Files of whole frames are counted.
  pub count_files-join :
      (n : ℕ) (groups : List (List (List ℕ)))
      → All (All (IsFrame crc32 max)) groups
      → n < 2 ^ 64
      → count_files crc32 max n (map concat groups)
        ≡ some (counted ((n + length (join groups)) % 2 ^ 64))
  unfolding count_files
  count_files-join n [] h k = ap (λ t. some (counted t)) (omega arith)
  count_files-join n (g ∷ groups) (hg, h) k =
      count_files_step n (length g) (concat g) (map concat groups) (count-concat crc32 max g hg)
        (file_passes g)
      ∙ count_files-join (add64 n (length g)) groups h (omega arith)
      ∙ ap (λ t. some (counted t)) (omega (arith, length-append g (join groups)))

not_empty : (xs : List ℕ) (y : ℕ) (ys : List ℕ) → is_empty (xs ++ y ∷ ys) ≡ false
not_empty [] y ys = refl
not_empty (x ∷ xs) y ys = refl

line_not_empty : (l : IndexLine) → is_empty (print_line l) ≡ false
unfolding print_line
line_not_empty l = not_empty _ _ _

pub lines_not_empty :
    (lines : List IndexLine) → All (λ l. is_empty l ≡ false) (map print_line lines)
lines_not_empty [] = tt
lines_not_empty (l ∷ lines) = (line_not_empty l, lines_not_empty lines)
