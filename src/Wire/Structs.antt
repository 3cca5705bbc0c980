-- ===== src/Wire/Structs.antt =====
-- Packed structs, as lists of fields with their widths in bytes.
use local_pc.Common.{
  ℕ, zero, suc, ◌+◌, ◌^◌, ◌≤◌, ◌<◌, ◌≡◌, refl, ap, ap₂, sym, ◌∙◌, arith, List, [], ◌∷◌, ◌++◌,
  length, take, drop, All, length-append, length-take, length-drop, All-append, All-take, All-drop,
  take-append, drop-append,
}
use mathlib.Core.List.{append_assoc}
use local_pc.Wire.Words.{
  IsByte, le_bytes, le_value, length-le_bytes, le_bytes-IsByte, le_value-le_bytes,
  le_bytes-le_value, le_value-lt,
}

-- The field of `n` bytes at offset `off`.
unfoldable pub field : ℕ → ℕ → List ℕ → ℕ
field n off bytes = le_value (take n (drop off bytes))

-- The bytes of a struct from its fields, each with its width.
unfoldable pub encode_fields : List (ℕ × ℕ) → List ℕ
encode_fields [] = []
encode_fields ((n, v) ∷ fs) = le_bytes n v ++ encode_fields fs

-- The fields of the given widths from offset `off` on.
abbrev pub read_fields : List ℕ → ℕ → List ℕ → List (ℕ × ℕ)
read_fields [] off bytes = []
read_fields (n ∷ ns) off bytes = (n, field n off bytes) ∷ read_fields ns (off + n) bytes

abbrev pub total : List ℕ → ℕ
total [] = 0
total (n ∷ ns) = n + total ns

abbrev pub size_of : List (ℕ × ℕ) → ℕ
size_of [] = 0
size_of ((n, v) ∷ fs) = n + size_of fs

-- Every value fits its width.
abbrev pub Fit : List (ℕ × ℕ) → Type 0
Fit [] = Unit {0}
Fit ((n, v) ∷ fs) = (v < 256 ^ n) × Fit fs

-- The width, the offset and the value of the field with index `i`.
abbrev pub width : List (ℕ × ℕ) → ℕ → ℕ
width [] i = 0
width ((n, v) ∷ fs) zero = n
width ((n, v) ∷ fs) (suc i) = width fs i

abbrev pub offset : List (ℕ × ℕ) → ℕ → ℕ
offset [] i = 0
offset ((n, v) ∷ fs) zero = 0
offset ((n, v) ∷ fs) (suc i) = n + offset fs i

abbrev pub content : List (ℕ × ℕ) → ℕ → ℕ
content [] i = 0
content ((n, v) ∷ fs) zero = v
content ((n, v) ∷ fs) (suc i) = content fs i

drop-nil : (n : ℕ) → drop {A = ℕ} n [] ≡ []
drop-nil zero = refl
drop-nil (suc n) = refl

take-nil : (n : ℕ) → take {A = ℕ} n [] ≡ []
take-nil zero = refl
take-nil (suc n) = refl

pub drop_more : (off n : ℕ) (xs : List ℕ) → drop (n + off) xs ≡ drop off (drop n xs)
drop_more off zero xs = ap (λ t. drop t xs) (omega arith)
drop_more off (suc n) [] = drop-nil (suc n + off) ∙ sym (drop-nil off)
drop_more off (suc n) (x ∷ xs) =
    let e : suc n + off ≡ suc (n + off) = omega arith in rw e (drop_more off n xs)

field-skip :
    (n off k w : ℕ) (rest : List ℕ) → field n (k + off) (le_bytes k w ++ rest) ≡ field n off rest
unfolding field
field-skip n off k w rest =
    ap (λ t. le_value (take n t))
      (drop_more off k (le_bytes k w ++ rest)
        ∙ ap (drop off) (drop-append k (le_bytes k w) rest (sym (length-le_bytes k w))))

-- Every field of an encoded struct is read back, whatever bytes follow the struct.
pub field-encode_fields :
    (fs : List (ℕ × ℕ)) (i : ℕ) (rest : List ℕ)
    → i < length fs
    → Fit fs
    → field (width fs i) (offset fs i) (encode_fields fs ++ rest) ≡ content fs i
unfolding encode_fields field
field-encode_fields [] i rest h f = absurd (omega arith)
field-encode_fields ((n, v) ∷ fs) zero rest h (fv, ffs) =
    ap le_value (
      ap (take n) (append_assoc (le_bytes n v) (encode_fields fs) rest)
      ∙ take-append n (le_bytes n v) (encode_fields fs ++ rest) (sym (length-le_bytes n v)))
    ∙ le_value-le_bytes n v fv
field-encode_fields ((n, v) ∷ fs) (suc i) rest h (fv, ffs) =
    ap (field (width fs i) (n + offset fs i)) (append_assoc (le_bytes n v) (encode_fields fs) rest)
    ∙ field-skip (width fs i) (offset fs i) n v (encode_fields fs ++ rest)
    ∙ field-encode_fields fs i rest (omega arith) ffs

pub encode_fields-IsByte : (fs : List (ℕ × ℕ)) → All IsByte (encode_fields fs)
unfolding encode_fields
encode_fields-IsByte [] = tt
encode_fields-IsByte ((n, v) ∷ fs) =
    All-append IsByte (le_bytes n v) (encode_fields fs) (le_bytes-IsByte n v)
      (encode_fields-IsByte fs)

pub take-take-drop : (n m : ℕ) (xs : List ℕ) → take n xs ++ take m (drop n xs) ≡ take (n + m) xs
take-take-drop zero m xs = ap (λ t. take t xs) (omega arith)
take-take-drop (suc n) m [] = take-nil m ∙ sym (take-nil (suc n + m))
take-take-drop (suc n) m (x ∷ xs) =
    let e : suc n + m ≡ suc (n + m) = omega arith in rw e (ap (λ t. x ∷ t) (take-take-drop n m xs))

-- Reading all fields of a struct and writing them again gives its bytes.
pub encode_fields-read_fields :
    (ns : List ℕ) (off : ℕ) (bytes : List ℕ)
    → off + total ns ≤ length bytes
    → All IsByte bytes
    → encode_fields (read_fields ns off bytes) ≡ take (total ns) (drop off bytes)
unfolding encode_fields field
encode_fields-read_fields [] off bytes h k = refl
encode_fields-read_fields (n ∷ ns) off bytes h k =
    ap₂ ◌++◌
      (le_bytes-le_value n (take n (drop off bytes)) enough
        (All-take IsByte n _ (All-drop IsByte off bytes k)))
      (encode_fields-read_fields ns (off + n) bytes (omega arith) k
        ∙ ap (λ t. take (total ns) (drop t bytes)) (omega arith)
        ∙ ap (take (total ns)) (drop_more n off bytes))
    ∙ take-take-drop n (total ns) (drop off bytes)
  where
    enough : length (take n (drop off bytes)) ≡ n
    enough = omega (arith, length-take n (drop off bytes), length-drop off bytes)

pub length-encode_fields : (fs : List (ℕ × ℕ)) → length (encode_fields fs) ≡ size_of fs
unfolding encode_fields
length-encode_fields [] = refl
length-encode_fields ((n, v) ∷ fs) = omega (
  arith,
  length-append (le_bytes n v) (encode_fields fs),
  length-le_bytes n v,
  length-encode_fields fs,
)

-- A field of a byte string fits its width.
pub field-lt : (n off : ℕ) (bytes : List ℕ) → All IsByte bytes → field n off bytes < 256 ^ n
unfolding field
field-lt n off bytes h =
    le_value-lt n (take n (drop off bytes)) (omega (arith, length-take n (drop off bytes)))
      (All-take IsByte n _ (All-drop IsByte off bytes h))

pub drop-append_le : (n : ℕ) (xs ys : List ℕ) → n ≤ length xs → drop n (xs ++ ys) ≡ drop n xs ++ ys
drop-append_le zero xs ys h = refl
drop-append_le (suc n) [] ys h = absurd (omega arith)
drop-append_le (suc n) (x ∷ xs) ys h = drop-append_le n xs ys (omega arith)

take-append_le : (n : ℕ) (xs ys : List ℕ) → n ≤ length xs → take n (xs ++ ys) ≡ take n xs
take-append_le zero xs ys h = refl
take-append_le (suc n) [] ys h = absurd (omega arith)
take-append_le (suc n) (x ∷ xs) ys h = ap (λ t. x ∷ t) (take-append_le n xs ys (omega arith))

-- Bytes behind a field do not change it.
pub field-append :
    (n off : ℕ) (bytes rest : List ℕ)
    → off + n ≤ length bytes
    → field n off (bytes ++ rest) ≡ field n off bytes
unfolding field
field-append n off bytes rest h = ap le_value (
    ap (take n) (drop-append_le off bytes rest (omega arith))
    ∙ take-append_le n (drop off bytes) rest (omega (arith, length-drop off bytes)))
