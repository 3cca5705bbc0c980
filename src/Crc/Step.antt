-- ===== src/Crc/Step.antt =====
-- How one round of the bitwise loop acts on words.
use local_pc.Common.{ℕ, zero, suc, ◌*◌, ◌/◌, ◌^◌, ◌<◌, ◌≡◌, refl, sym, ap, ◌∙◌, bit_xor, arith}
use local_pc.Common.Xor.{
  bit_xor_assoc, bit_xor_comm, bit_xor_low, bit_xor-half, bit_xor-lt, bit_and-one, bit_xor-shr,
  bit_xor_injective,
}
use local_pc.Crc.Runtime.{polynomial, crc_bit, crc_bits, crc_byte}
use native.Mathlib.Nat.{pow-suc}

-- Two words that differ by a third may take it in either order.
swap_last : (a b c : ℕ) → bit_xor (bit_xor a b) c ≡ bit_xor (bit_xor a c) b
swap_last a b c =
    bit_xor_assoc a b c ∙ ap (λ t. bit_xor a t) (bit_xor_comm b c) ∙ sym (bit_xor_assoc a c b)

-- What stands above the lowest bit is only shifted.
pub crc_bit-bit_xor : (a b : ℕ) → crc_bit (bit_xor a (2 * b)) ≡ bit_xor (crc_bit a) b
unfolding crc_bit
crc_bit-bit_xor a b = ground (
  arith,
  bit_and-one a,
  bit_and-one (bit_xor a (2 * b)),
  bit_xor_low a (2 * b),
  bit_xor-half a (2 * b) ∙ ap (λ t. bit_xor (a / 2) t) half_double,
  swap_last (a / 2) b polynomial,
)
  where
    half_double : 2 * b / 2 ≡ b
    half_double = omega arith

pub crc_bits-bit_xor : (k a b : ℕ) → crc_bits k (bit_xor a (2 ^ k * b)) ≡ bit_xor (crc_bits k a) b
unfolding crc_bits
crc_bits-bit_xor zero a b = ap (λ t. bit_xor a t) (omega arith)
crc_bits-bit_xor (suc k) a b =
    ap (crc_bits k) (ap (λ t. crc_bit (bit_xor a t)) double ∙ crc_bit-bit_xor a (2 ^ k * b))
    ∙ crc_bits-bit_xor k (crc_bit a) b
  where
    double : 2 ^ suc k * b ≡ 2 * (2 ^ k * b)
    double = omega (arith, ap (λ (t : ℕ). t * b) (pow-suc 2 k))

-- A round keeps a word within 32 bits.
pub crc_bit-lt : (a : ℕ) → a < 2 ^ 32 → crc_bit a < 2 ^ 32
unfolding crc_bit
crc_bit-lt a h = ground (arith, bit_xor-lt 32 (a / 2) polynomial (omega arith) (omega arith))

pub crc_bits-lt : (k a : ℕ) → a < 2 ^ 32 → crc_bits k a < 2 ^ 32
unfolding crc_bits
crc_bits-lt zero a h = h
crc_bits-lt (suc k) a h = crc_bits-lt k (crc_bit a) (crc_bit-lt a h)

pub crc_byte-lt : (crc byte : ℕ) → crc < 2 ^ 32 → byte < 256 → crc_byte crc byte < 2 ^ 32
unfolding crc_byte
crc_byte-lt crc byte h k = crc_bits-lt 8 (bit_xor crc byte) (bit_xor-lt 32 crc byte h (omega arith))

-- The highest bit of the result tells which branch was taken: the polynomial has it, a half has not.
top_bit : (a : ℕ) → a < 2 ^ 32 → bit_xor (a / 2) polynomial / 2 ^ 31 ≡ 1
top_bit a h = bit_xor-shr 31 (a / 2) polynomial ∙ ap (λ t. bit_xor t 1) high ∙ refl
  where
    high : a / 2 / 2 ^ 31 ≡ 0
    high = omega arith

pub crc_bit_injective : (a b : ℕ) → a < 2 ^ 32 → b < 2 ^ 32 → crc_bit a ≡ crc_bit b → a ≡ b
unfolding crc_bit
crc_bit_injective a b ha hb e = ground (
  arith,
  bit_and-one a,
  bit_and-one b,
  top_bit a ha,
  top_bit b hb,
  bit_xor_injective (a / 2) (b / 2) polynomial,
)

pub crc_bits_injective : (k a b : ℕ) → a < 2 ^ 32 → b < 2 ^ 32 → crc_bits k a ≡ crc_bits k b → a ≡ b
unfolding crc_bits
crc_bits_injective zero a b ha hb e = e
crc_bits_injective (suc k) a b ha hb e =
    crc_bit_injective a b ha hb
      (crc_bits_injective k (crc_bit a) (crc_bit b) (crc_bit-lt a ha) (crc_bit-lt b hb) e)
