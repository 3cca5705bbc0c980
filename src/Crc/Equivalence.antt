-- ===== src/Crc/Equivalence.antt =====
-- The two implementations agree: a table lookup does the eight rounds of a byte at once.
use local_pc.Common.{
  ℕ, zero, suc, ◌+◌, ◌/◌, ◌%◌, ◌^◌, ◌<◌, ◌≡◌, refl, sym, ap, ◌∙◌, bit_and, bit_xor, arith, List, [],
  ◌∷◌, get_or, All,
}
use local_pc.Common.Xor.{
  bit_xor_comm, bit_xor_fields, bit_xor-shr, bit_xor_ones, bit_and_byte, bit_xor-zero,
}
use local_pc.Wire.{IsByte}
use local_pc.Crc.Runtime
use local_pc.Crc.Runtime.{crc_bit, crc_bits, crc_byte, crc_loop}
use local_pc.Crc.Offline
use local_pc.Crc.Offline.{entry_bit, entry_bits, fill_table, crc32_table, crc32_loop}
use local_pc.Crc.Step.{crc_bits-bit_xor, crc_byte-lt}

entry_bit-crc_bit : (v : ℕ) → entry_bit v ≡ crc_bit v
unfolding entry_bit crc_bit
entry_bit-crc_bit v = ground (arith, bit_xor_comm Offline.polynomial (v / 2))

entry_bits-crc_bits : (k v : ℕ) → entry_bits k v ≡ crc_bits k v
unfolding entry_bits crc_bits
entry_bits-crc_bits zero v = refl
entry_bits-crc_bits (suc k) v =
    entry_bits-crc_bits k (entry_bit v) ∙ ap (crc_bits k) (entry_bit-crc_bit v)

get_or-fill_table : (n i j : ℕ) → j < n → get_or (fill_table n i) j 0 ≡ entry_bits 8 (i + j)
unfolding fill_table
get_or-fill_table zero i j h = absurd (omega arith)
get_or-fill_table (suc n) i zero h = ap (entry_bits 8) (omega arith)
get_or-fill_table (suc n) i (suc j) h =
    get_or-fill_table n (i + 1) j (omega arith) ∙ ap (entry_bits 8) (omega arith)

-- The table at `i` holds eight rounds on `i`.
pub table_lookup : (i : ℕ) → i < 256 → get_or crc32_table i 0 ≡ crc_bits 8 i
unfolding crc32_table
table_lookup i h =
    get_or-fill_table 256 0 i h ∙ entry_bits-crc_bits 8 (0 + i) ∙ ap (crc_bits 8) (omega arith)

-- Eight rounds on a word: those on its lowest byte, over the rest shifted.
crc_bits_eight : (x : ℕ) → crc_bits 8 x ≡ bit_xor (crc_bits 8 (x % 256)) (x / 256)
crc_bits_eight x =
    ap (crc_bits 8) (sym (bit_xor_fields 8 (x / 256) (x % 256) (omega arith) ∙ omega arith))
    ∙ crc_bits-bit_xor 8 (x % 256) (x / 256)

high_part : (val byte : ℕ) → byte < 256 → bit_xor val byte / 256 ≡ val / 256
high_part val byte h =
    bit_xor-shr 8 val byte ∙ ap (λ t. bit_xor (val / 256) t) small ∙ bit_xor-zero (val / 256)
  where
    small : byte / 256 ≡ 0
    small = omega arith

table_byte :
    (val byte : ℕ)
    → byte < 256
    → bit_xor (get_or crc32_table (bit_and (bit_xor val byte) 0xFF) 0) (val / 256)
      ≡ crc_byte val byte
unfolding crc_byte
table_byte val byte h =
    ap (λ t. bit_xor (get_or crc32_table t 0) (val / 256)) (bit_and_byte (bit_xor val byte))
    ∙ ap (λ t. bit_xor t (val / 256)) (table_lookup (bit_xor val byte % 256) (omega arith))
    ∙ ap (λ t. bit_xor (crc_bits 8 (bit_xor val byte % 256)) t) (sym (high_part val byte h))
    ∙ sym (crc_bits_eight (bit_xor val byte))

crc32_loop-crc_loop :
    (val : ℕ) (bytes : List ℕ) → All IsByte bytes → crc32_loop val bytes ≡ crc_loop val bytes
unfolding crc32_loop crc_loop
crc32_loop-crc_loop val [] h = refl
crc32_loop-crc_loop val (byte ∷ bytes) (hb, hbs) =
    ap (λ t. crc32_loop t bytes) (table_byte val byte hb)
    ∙ crc32_loop-crc_loop (crc_byte val byte) bytes hbs

pub crc_loop-lt :
    (crc : ℕ) (bytes : List ℕ) → crc < 2 ^ 32 → All IsByte bytes → crc_loop crc bytes < 2 ^ 32
unfolding crc_loop
crc_loop-lt crc [] h k = h
crc_loop-lt crc (byte ∷ bytes) h (kb, kbs) =
    crc_loop-lt (crc_byte crc byte) bytes (crc_byte-lt crc byte h kb) kbs

-- On every string of bytes the table-driven checksum of the offline side is the checksum that the
-- runtime side computes bit by bit.
pub offline_crc32-runtime_crc32 :
    (bytes : List ℕ) → All IsByte bytes → Offline.crc32 bytes ≡ Runtime.crc32 bytes
unfolding Offline.crc32 Runtime.crc32
offline_crc32-runtime_crc32 bytes h =
    ap (λ t. bit_xor t 0xFFFFFFFF) (crc32_loop-crc_loop 0xFFFFFFFF bytes h)
    ∙ bit_xor_ones 32 (crc_loop 0xFFFFFFFF bytes) (crc_loop-lt 0xFFFFFFFF bytes (omega arith) h)
