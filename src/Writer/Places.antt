-- ===== src/Writer/Places.antt =====
-- Lines of the index and the places in the files that they lead to.
use local_pc.Common.{
  ℕ, zero, suc, ◌%◌, ◌^◌, ◌≤◌, ◌≡◌, refl, sym, ap, ◌∙◌, arith, List, [], ◌∷◌, ◌++◌, length,
  length-append, drop, All, get_or,
}
use mathlib.Core.List.{append-nil}
use local_pc.Wire.Structs.{drop-append_le}
use local_pc.Frame.Header.{EgoFrameHeader, decode_header, frame_magic}
use local_pc.Frame.Layout.{decode_header-append}
use local_pc.Writer.Chunks.{ChunkWriter, IndexLine, index_line}

abbrev pub files : ChunkWriter → List (List ℕ)
files w = w.earlier ++ w.file ∷ []

-- In the file of its chunk, at its offset, stands a header with the contents of the line. A line keeps
-- the number of the chunk and the offset as far as their fields are wide.
pub record IsPointed (fs : List (List ℕ)) (line : IndexLine) : Type 0 where
  pub chunk : ℕ
  pub place : ℕ
  pub chunk_id : line.chunk_id ≡ chunk % 2 ^ 32
  pub offset : line.offset ≡ place % 2 ^ 64
  pub whole : 72 ≤ length (drop place (get_or fs chunk []))
  pub magic : (decode_header (drop place (get_or fs chunk []))).magic ≡ frame_magic
  pub header :
      line ≡ index_line (decode_header (drop place (get_or fs chunk []))) line.offset line.chunk_id

-- Every file of the first list is the start of that of the second.
abbrev pub Extends : List (List ℕ) → List (List ℕ) → Type 0
Extends fs gs = (k : ℕ) → (more : List ℕ) × (get_or gs k [] ≡ get_or fs k [] ++ more)

pub append-Extends :
    (es : List (List ℕ)) (f more : List ℕ) → Extends (es ++ f ∷ []) (es ++ (f ++ more) ∷ [])
append-Extends [] f more zero = (more, refl)
append-Extends [] f more (suc k) = ([], refl)
append-Extends (e ∷ es) f more zero = ([], sym (append-nil e))
append-Extends (e ∷ es) f more (suc k) = append-Extends es f more k

pub new_file-Extends : (fs : List (List ℕ)) → Extends fs (fs ++ [] ∷ [])
new_file-Extends [] zero = ([], refl)
new_file-Extends [] (suc k) = ([], refl)
new_file-Extends (f ∷ fs) zero = ([], sym (append-nil f))
new_file-Extends (f ∷ fs) (suc k) = new_file-Extends fs k

pub get_or_last : (es : List (List ℕ)) (f : List ℕ) → get_or (es ++ f ∷ []) (length es) [] ≡ f
get_or_last [] f = refl
get_or_last (e ∷ es) f = get_or_last es f

-- A place with something behind it lies within the list.
place_within : (n : ℕ) (xs : List ℕ) → 72 ≤ length (drop n xs) → n ≤ length xs
place_within zero xs h = omega arith
place_within (suc n) [] h = absurd (omega arith)
place_within (suc n) (x ∷ xs) h = omega (arith, place_within n xs h)

file-IsPointed :
    (fs gs : List (List ℕ)) (line : IndexLine) (p : IsPointed fs line) (more : List ℕ)
    → get_or gs p.chunk [] ≡ get_or fs p.chunk [] ++ more
    → IsPointed gs line
file-IsPointed fs gs line p more e =
    let there : drop p.place (get_or gs p.chunk []) ≡ drop p.place (get_or fs p.chunk []) ++ more =
      ap (drop p.place) e
      ∙ drop-append_le p.place (get_or fs p.chunk []) more
          (place_within p.place (get_or fs p.chunk []) p.whole) in
    let same : decode_header (drop p.place (get_or gs p.chunk []))
        ≡ decode_header (drop p.place (get_or fs p.chunk [])) =
      ap decode_header there ∙ decode_header-append _ more p.whole in
    record {
      chunk = p.chunk;
      place = p.place;
      chunk_id = p.chunk_id;
      offset = p.offset;
      whole = omega (
        arith,
        p.whole,
        ap (λ (t : List ℕ). length t) there,
        length-append (drop p.place (get_or fs p.chunk [])) more,
      );
      magic = ap (λ (t : EgoFrameHeader). t.magic) same ∙ p.magic;
      header = p.header ∙ sym (ap (λ t. index_line t line.offset line.chunk_id) same);
    }

pub lines-Extends :
    (fs gs : List (List ℕ)) (lines : List IndexLine)
    → Extends fs gs
    → All (IsPointed fs) lines
    → All (IsPointed gs) lines
lines-Extends fs gs [] e h = tt
lines-Extends fs gs (line ∷ lines) e (h, hs) =
    (file-IsPointed fs gs line h (e h.chunk).0 (e h.chunk).1, lines-Extends fs gs lines e hs)
