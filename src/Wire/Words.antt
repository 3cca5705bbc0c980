-- ===== src/Wire/Words.antt =====
-- Little-endian words: the bytes of an unsigned integer, and the integer of some bytes.
use local_pc.Common.{
  ℕ, zero, suc, ◌+◌, ◌*◌, ◌/◌, ◌%◌, ◌^◌, ◌≤◌, ◌<◌, ◌≡◌, refl, ap, ap₂, ◌∙◌, arith, List, [], ◌∷◌,
  length, All,
}
use native.Mathlib.Nat.{pow-suc}

-- An element of a byte string.
abbrev pub IsByte : ℕ → Type 0
IsByte b = b < 256

unfoldable pub le_bytes : ℕ → ℕ → List ℕ
le_bytes zero v = []
le_bytes (suc n) v = v % 256 ∷ le_bytes n (v / 256)

unfoldable pub le_value : List ℕ → ℕ
le_value [] = 0
le_value (b ∷ bs) = b + 256 * le_value bs

pub length-le_bytes : (n v : ℕ) → length (le_bytes n v) ≡ n
unfolding le_bytes
length-le_bytes zero v = refl
length-le_bytes (suc n) v = ap suc (length-le_bytes n (v / 256))

pub le_bytes-IsByte : (n v : ℕ) → All IsByte (le_bytes n v)
unfolding le_bytes
le_bytes-IsByte zero v = tt
le_bytes-IsByte (suc n) v = (omega arith, le_bytes-IsByte n (v / 256))

-- A word that fits is read back.
pub le_value-le_bytes : (n v : ℕ) → v < 256 ^ n → le_value (le_bytes n v) ≡ v
unfolding le_bytes le_value
le_value-le_bytes zero v h = omega arith
le_value-le_bytes (suc n) v h =
    omega (arith, le_value-le_bytes n (v / 256) (omega (arith, pow-suc 256 n)))

-- Bytes are the bytes of their word.
pub le_bytes-le_value :
    (n : ℕ) (bs : List ℕ) → length bs ≡ n → All IsByte bs → le_bytes n (le_value bs) ≡ bs
unfolding le_bytes le_value
le_bytes-le_value zero [] e h = refl
le_bytes-le_value zero (b ∷ bs) e h = absurd (omega arith)
le_bytes-le_value (suc n) [] e h = absurd (omega arith)
le_bytes-le_value (suc n) (b ∷ bs) e (hb, hbs) =
    ap₂ ◌∷◌ low (ap (le_bytes n) high ∙ le_bytes-le_value n bs (omega arith) hbs)
  where
    low : (b + 256 * le_value bs) % 256 ≡ b
    low = omega arith

    high : (b + 256 * le_value bs) / 256 ≡ le_value bs
    high = omega arith

pub le_value-lt : (n : ℕ) (bs : List ℕ) → length bs ≤ n → All IsByte bs → le_value bs < 256 ^ n
unfolding le_value
le_value-lt zero [] e h = omega arith
le_value-lt zero (b ∷ bs) e h = absurd (omega arith)
le_value-lt (suc n) [] e h = omega (arith, pow-suc 256 n, le_value-lt n [] (omega arith) h)
le_value-lt (suc n) (b ∷ bs) e (hb, hbs) =
    omega (arith, pow-suc 256 n, le_value-lt n bs (omega arith) hbs)
