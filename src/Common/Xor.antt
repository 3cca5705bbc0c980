-- ===== src/Common/Xor.antt =====
-- The laws of `^` on words of any width, from the recursion on binary digits that it stands for.
use Prim.Native.Nat.{
  ℕ, zero, suc, ◌+◌, ◌-◌, ◌*◌, ◌/◌, ◌%◌, ◌^◌, ◌≤◌, ◌<◌, bit_and, bit_xor, digits, bitwise,
  bit_xor-bitwise, bit_and-bitwise, differ, min,
}
use mathlib.Core.Path.{◌≡◌, refl, sym, ap, ap₂, ◌∙◌}
use native.Mathlib.Nat.{pow-suc, one-le-pow, div-one, div-div-eq-div-mul, mul_comm}
use native.Mathlib.Omega.{arith}

-- `bitwise` runs on as much fuel as its first number; what is spare changes nothing.
module _ (rest : ℕ → ℕ) (low : ℕ → ℕ → ℕ) where
  fuel_one : (left x y : ℕ) → x ≤ left → digits rest low (suc left) x y ≡ digits rest low left x y
  fuel_one (suc left) (suc x) y h =
      ap (λ t. t * 2 + low (suc x % 2) (y % 2)) (fuel_one left (suc x / 2) (y / 2) (omega arith))
  fuel_one zero (suc x) y h = absurd (omega arith)
  fuel_one (suc left) zero y h = refl
  fuel_one zero zero y h = refl

  fuel_more :
      (left spare x y : ℕ)
      → x ≤ left
      → digits rest low (spare + left) x y ≡ digits rest low left x y
  fuel_more left zero x y h = ap (λ t. digits rest low t x y) (omega arith)
  fuel_more left (suc spare) x y h =
      let next : suc spare + left ≡ suc (spare + left) = omega arith in
      ap (λ t. digits rest low t x y) next
      ∙ fuel_one (spare + left) x y (omega arith)
      ∙ fuel_more left spare x y h

  bitwise_step :
      (x y : ℕ)
      → bitwise rest low (suc x) y
        ≡ bitwise rest low (suc x / 2) (y / 2) * 2 + low (suc x % 2) (y % 2)
  bitwise_step x y =
      let parts : x - suc x / 2 + suc x / 2 ≡ x = omega arith in
      ap (λ t. t * 2 + low (suc x % 2) (y % 2))
        (ap (λ t. digits rest low t (suc x / 2) (y / 2)) (sym parts)
          ∙ fuel_more (suc x / 2) (x - suc x / 2) (suc x / 2) (y / 2) (omega arith))

-- The lowest digit of a sum of two digits.
abbrev pub digit_xor : ℕ → ℕ → ℕ
digit_xor a b = (a + b) % 2

differ_lem : (a b : ℕ) → a < 2 → b < 2 → differ a b ≡ (a + b) % 2
differ_lem zero b p q = omega arith
differ_lem (suc a) zero p q = omega arith
differ_lem (suc zero) (suc zero) p q = omega arith
differ_lem (suc zero) (suc (suc b)) p q = absurd (omega arith)
differ_lem (suc (suc a)) (suc b) p q = absurd (omega arith)

pub bit_xor_step : (a b : ℕ) → bit_xor a b ≡ bit_xor (a / 2) (b / 2) * 2 + (a + b) % 2
bit_xor_step zero b = simp bit_xor-bitwise (omega arith)
bit_xor_step (suc a) b = simp bit_xor-bitwise (
    omega (
      arith,
      bitwise_step (λ y. y) differ a b,
      differ_lem (suc a % 2) (b % 2) (omega arith) (omega arith),
    ))

pub bit_and_step : (x y : ℕ) → bit_and x y ≡ bit_and (x / 2) (y / 2) * 2 + min (x % 2) (y % 2)
bit_and_step (suc x) y = simp bit_and-bitwise (bitwise_step (λ t. 0) min x y)
bit_and_step zero y = simp bit_and-bitwise (omega arith)

pub zero-bit_xor : (b : ℕ) → bit_xor 0 b ≡ b
zero-bit_xor b = bit_xor-bitwise 0 b

pub bit_xor-half : (a b : ℕ) → bit_xor a b / 2 ≡ bit_xor (a / 2) (b / 2)
bit_xor-half a b = omega (arith, bit_xor_step a b)

pub bit_xor_low : (a b : ℕ) → bit_xor a b % 2 ≡ (a + b) % 2
bit_xor_low a b = omega (arith, bit_xor_step a b)

-- Two numbers with the same lowest digit and the same rest.
halves_eq : (a b : ℕ) → a % 2 ≡ b % 2 → a / 2 ≡ b / 2 → a ≡ b
halves_eq a b p q = omega arith

bit_xor_comm_fuel : (n a b : ℕ) → a + b ≤ n → bit_xor a b ≡ bit_xor b a
bit_xor_comm_fuel n zero zero h = refl
bit_xor_comm_fuel zero zero (suc b) h = absurd (omega arith)
bit_xor_comm_fuel zero (suc a) b h = absurd (omega arith)
bit_xor_comm_fuel (suc n) a b h =
    omega
      (arith, bit_xor_step a b, bit_xor_step b a, bit_xor_comm_fuel n (a / 2) (b / 2) (omega arith))

pub bit_xor_comm : (a b : ℕ) → bit_xor a b ≡ bit_xor b a
bit_xor_comm a b = bit_xor_comm_fuel (a + b) a b (omega arith)

pub bit_xor-zero : (a : ℕ) → bit_xor a 0 ≡ a
bit_xor-zero a = bit_xor_comm a 0 ∙ zero-bit_xor a

-- One digit of associativity, from that of the rest.
bit_xor_assoc_step :
    (a b c : ℕ)
    → bit_xor (bit_xor (a / 2) (b / 2)) (c / 2) ≡ bit_xor (a / 2) (bit_xor (b / 2) (c / 2))
    → bit_xor (bit_xor a b) c ≡ bit_xor a (bit_xor b c)
bit_xor_assoc_step a b c ih =
    halves_eq _ _
      (omega (
        arith,
        bit_xor_low (bit_xor a b) c,
        bit_xor_low a b,
        bit_xor_low a (bit_xor b c),
        bit_xor_low b c,
      ))
      (bit_xor-half (bit_xor a b) c
        ∙ ap (λ t. bit_xor t (c / 2)) (bit_xor-half a b)
        ∙ ih
        ∙ ap (λ t. bit_xor (a / 2) t) (sym (bit_xor-half b c))
        ∙ sym (bit_xor-half a (bit_xor b c)))

bit_xor_assoc_fuel :
    (n a b c : ℕ) → a + b + c ≤ n → bit_xor (bit_xor a b) c ≡ bit_xor a (bit_xor b c)
bit_xor_assoc_fuel zero a b c h =
    let ea : a ≡ 0 = omega arith in
    let eb : b ≡ 0 = omega arith in let ec : c ≡ 0 = omega arith in rw (ea, eb, ec)
bit_xor_assoc_fuel (suc n) zero b c h =
    ap (λ t. bit_xor t c) (zero-bit_xor b) ∙ sym (zero-bit_xor _)
bit_xor_assoc_fuel (suc n) (suc a) b c h =
    bit_xor_assoc_step (suc a) b c (bit_xor_assoc_fuel n (suc a / 2) (b / 2) (c / 2) (omega arith))

pub bit_xor_assoc : (a b c : ℕ) → bit_xor (bit_xor a b) c ≡ bit_xor a (bit_xor b c)
bit_xor_assoc a b c = bit_xor_assoc_fuel (a + b + c) a b c (omega arith)

bit_xor_self_fuel : (n a : ℕ) → a ≤ n → bit_xor a a ≡ 0
bit_xor_self_fuel n zero h = refl
bit_xor_self_fuel zero (suc a) h = absurd (omega arith)
bit_xor_self_fuel (suc n) (suc a) h =
    omega (arith, bit_xor_step (suc a) (suc a), bit_xor_self_fuel n (suc a / 2) (omega arith))

pub bit_xor_self : (a : ℕ) → bit_xor a a ≡ 0
bit_xor_self a = bit_xor_self_fuel a a (omega arith)

-- What is combined with `b` twice is what it was.
pub bit_xor_cancel : (a b : ℕ) → bit_xor (bit_xor a b) b ≡ a
bit_xor_cancel a b = bit_xor_assoc a b b ∙ ap (λ t. bit_xor a t) (bit_xor_self b) ∙ bit_xor-zero a

pub bit_xor_injective : (a b c : ℕ) → bit_xor a c ≡ bit_xor b c → a ≡ b
bit_xor_injective a b c e = sym (bit_xor_cancel a c) ∙ ap (λ t. bit_xor t c) e ∙ bit_xor_cancel b c

-- Words of `k` bits stay within `k` bits.
pub bit_xor-lt : (k a b : ℕ) → a < 2 ^ k → b < 2 ^ k → bit_xor a b < 2 ^ k
bit_xor-lt zero a b p q =
    let ea : a ≡ 0 = omega arith in let eb : b ≡ 0 = omega arith in rw (ea, eb) (omega arith)
bit_xor-lt (suc k) a b p q = omega (
  arith,
  pow-suc 2 k,
  bit_xor_step a b,
  bit_xor-lt k (a / 2) (b / 2) (omega (arith, pow-suc 2 k)) (omega (arith, pow-suc 2 k)),
)

-- All ones: `x ^ (2 ^ k - 1)` is the complement of a word of `k` bits.
pub bit_xor_ones : (k a : ℕ) → a < 2 ^ k → bit_xor a (2 ^ k - 1) ≡ 2 ^ k - 1 - a
bit_xor_ones zero a p = let ea : a ≡ 0 = omega arith in rw ea (omega arith)
bit_xor_ones (suc k) a p = omega (
  arith,
  pow-suc 2 k,
  one-le-pow k 2,
  bit_xor_step a (2 ^ suc k - 1),
  ap (λ t. bit_xor (a / 2) t) ones_half,
  bit_xor_ones k (a / 2) (omega (arith, pow-suc 2 k)),
)
  where
    ones_half : (2 ^ suc k - 1) / 2 ≡ 2 ^ k - 1
    ones_half = omega (arith, pow-suc 2 k, one-le-pow k 2)

-- The lowest digit under a mask of one bit.
none_common : (bound x : ℕ) → x < bound → bit_and x 0 ≡ 0
none_common zero x h = absurd (omega arith)
none_common (suc bound) (suc x) h =
    let above = none_common bound (suc x / 2) (omega arith) in omega (arith, bit_and_step (suc x) 0)
none_common (suc bound) zero h = refl

pub bit_and-one : (a : ℕ) → bit_and a 1 ≡ a % 2
bit_and-one a =
    let above = none_common (suc a) (a / 2) (omega arith) in omega (arith, bit_and_step a 1)

-- A mask of eight ones is the remainder by 256, a digit at a time.
mask_two : (a : ℕ) → bit_and a 3 ≡ a % 4
mask_two a = omega (arith, bit_and_step a 3, bit_and-one (a / 2))

mask_three : (a : ℕ) → bit_and a 7 ≡ a % 8
mask_three a = omega (arith, bit_and_step a 7, mask_two (a / 2))

mask_four : (a : ℕ) → bit_and a 15 ≡ a % 16
mask_four a = omega (arith, bit_and_step a 15, mask_three (a / 2))

mask_five : (a : ℕ) → bit_and a 31 ≡ a % 32
mask_five a = omega (arith, bit_and_step a 31, mask_four (a / 2))

mask_six : (a : ℕ) → bit_and a 63 ≡ a % 64
mask_six a = omega (arith, bit_and_step a 63, mask_five (a / 2))

mask_seven : (a : ℕ) → bit_and a 127 ≡ a % 128
mask_seven a = omega (arith, bit_and_step a 127, mask_six (a / 2))

pub bit_and_byte : (a : ℕ) → bit_and a 0xFF ≡ a % 256
bit_and_byte a = omega (arith, bit_and_step a 255, mask_seven (a / 2))

half_shr : (k a : ℕ) → a / 2 ^ suc k ≡ a / 2 / 2 ^ k
half_shr k a =
    ap (λ t. a / t) (pow-suc 2 k)
    ∙ ap (λ t. a / t) (mul_comm (2 ^ k) 2)
    ∙ sym (div-div-eq-div-mul a 2 (2 ^ k))

-- Shifting right by `k` bits goes through.
pub bit_xor-shr : (k a b : ℕ) → bit_xor a b / 2 ^ k ≡ bit_xor (a / 2 ^ k) (b / 2 ^ k)
bit_xor-shr zero a b = div-one _ ∙ ap₂ bit_xor (sym (div-one a)) (sym (div-one b))
bit_xor-shr (suc k) a b =
    half_shr k (bit_xor a b)
    ∙ ap (λ t. t / 2 ^ k) (bit_xor-half a b)
    ∙ bit_xor-shr k (a / 2) (b / 2)
    ∙ ap₂ bit_xor (sym (half_shr k a)) (sym (half_shr k b))

-- Words that share no bit add up.
pub bit_xor_fields : (k h l : ℕ) → l < 2 ^ k → bit_xor l (2 ^ k * h) ≡ l + 2 ^ k * h
bit_xor_fields zero h l p = let e : l ≡ 0 = omega arith in rw e (zero-bit_xor _ ∙ omega arith)
bit_xor_fields (suc k) h l p = omega (
  arith,
  pow-suc 2 k,
  bit_xor_step l (2 ^ suc k * h),
  double,
  ap (λ t. bit_xor (l / 2) t) shifted,
  bit_xor_fields k h (l / 2) (omega (arith, pow-suc 2 k)),
)
  where
    double : 2 ^ suc k * h ≡ 2 * (2 ^ k * h)
    double = omega (arith, ap (λ (t : ℕ). t * h) (pow-suc 2 k))

    shifted : 2 ^ suc k * h / 2 ≡ 2 ^ k * h
    shifted = omega (arith, double)
