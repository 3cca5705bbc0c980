-- ===== src/Crc/Detection.antt =====
-- What the checksum detects.
use local_pc.Common.{
  ℕ, ◌-◌, ◌^◌, ◌<◌, ◌≡◌, ◌≢◌, refl, sym, ◌∙◌, arith, List, [], ◌∷◌, ◌++◌, All, All-append,
}
use local_pc.Common.Xor.{bit_xor_injective, bit_xor_comm, bit_xor-lt}
use local_pc.Crc.Runtime
use local_pc.Crc.Runtime.{crc_bits, crc_byte, crc_loop}
use local_pc.Crc.Step.{crc_bits_injective, crc_byte-lt}
use local_pc.Wire.{IsByte}
use local_pc.Crc.Equivalence.{crc_loop-lt}

-- A byte moves different states to different states, and a state is moved by different bytes to
-- different states.
crc_byte_injective :
    (a b byte : ℕ)
    → a < 2 ^ 32
    → b < 2 ^ 32
    → byte < 256
    → crc_byte a byte ≡ crc_byte b byte
    → a ≡ b
unfolding crc_byte
crc_byte_injective a b byte ha hb h e = bit_xor_injective a b byte (
    crc_bits_injective 8 _ _ (bit_xor-lt 32 a byte ha (omega arith))
      (bit_xor-lt 32 b byte hb (omega arith)) e)

crc_byte_injective_right :
    (a b c : ℕ) → a < 2 ^ 32 → b < 256 → c < 256 → crc_byte a b ≡ crc_byte a c → b ≡ c
unfolding crc_byte
crc_byte_injective_right a b c ha hb hc e = bit_xor_injective b c a (
    bit_xor_comm b a
    ∙ crc_bits_injective 8 _ _ (bit_xor-lt 32 a b ha (omega arith))
        (bit_xor-lt 32 a c ha (omega arith)) e
    ∙ bit_xor_comm a c)

crc_loop_injective :
    (a b : ℕ) (bytes : List ℕ)
    → a < 2 ^ 32
    → b < 2 ^ 32
    → All IsByte bytes
    → crc_loop a bytes ≡ crc_loop b bytes
    → a ≡ b
unfolding crc_loop
crc_loop_injective a b [] ha hb h e = e
crc_loop_injective a b (byte ∷ bytes) ha hb (h, hs) e = crc_byte_injective a b byte ha hb h (
    crc_loop_injective (crc_byte a byte) (crc_byte b byte) bytes (crc_byte-lt a byte ha h)
      (crc_byte-lt b byte hb h) hs e)

crc_loop-append :
    (crc : ℕ) (xs ys : List ℕ) → crc_loop crc (xs ++ ys) ≡ crc_loop (crc_loop crc xs) ys
unfolding crc_loop
crc_loop-append crc [] ys = refl
crc_loop-append crc (x ∷ xs) ys = crc_loop-append (crc_byte crc x) xs ys

complement_injective : (a b : ℕ) → a < 2 ^ 32 → b < 2 ^ 32 → 0xFFFFFFFF - a ≡ 0xFFFFFFFF - b → a ≡ b
complement_injective a b ha hb e = omega arith

-- Two strings of bytes that differ in exactly one byte have different checksums.
pub crc32_one_byte :
    (front back : List ℕ) (b c : ℕ)
    → All IsByte front
    → All IsByte back
    → b < 256
    → c < 256
    → b ≢ c
    → Runtime.crc32 (front ++ b ∷ back) ≢ Runtime.crc32 (front ++ c ∷ back)
unfolding Runtime.crc32 crc_loop
crc32_one_byte front back b c hf hk hb hc ne e = ne (
    crc_byte_injective_right start b c start-lt hb hc (
      crc_loop_injective (crc_byte start b) (crc_byte start c) back
        (crc_byte-lt start b start-lt hb) (crc_byte-lt start c start-lt hc) hk
        (sym (crc_loop-append 0xFFFFFFFF front (b ∷ back))
          ∙ complement_injective _ _ (whole b hb) (whole c hc) e
          ∙ crc_loop-append 0xFFFFFFFF front (c ∷ back))))
  where
    start : ℕ
    start = crc_loop 0xFFFFFFFF front

    start-lt : start < 2 ^ 32
    start-lt = crc_loop-lt 0xFFFFFFFF front (omega arith) hf

    whole : (d : ℕ) → d < 256 → crc_loop 0xFFFFFFFF (front ++ d ∷ back) < 2 ^ 32
    whole d hd =
        crc_loop-lt 0xFFFFFFFF _ (omega arith) (All-append IsByte front (d ∷ back) hf (hd, hk))
