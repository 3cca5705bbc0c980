-- ===== src/Crc/Offline.antt =====
-- offline/include/ego_offline/checksum.hpp: the checksum by a table of 256 words.
use local_pc.Common.{
  ℕ, zero, suc, ◌+◌, ◌/◌, bit_and, bit_xor, List, [], ◌∷◌, get_or, if◌then◌else◌, ◌==◌,
}

abbrev pub polynomial : ℕ
polynomial = 0xEDB88320

unfoldable pub entry_bit : ℕ → ℕ
entry_bit v = if bit_and v 1 == 0 then v / 2 else bit_xor polynomial (v / 2)

unfoldable pub entry_bits : ℕ → ℕ → ℕ
entry_bits zero v = v
entry_bits (suc n) v = entry_bits n (entry_bit v)

-- The outer loop of `crc32_table` from index `i` on, with the rounds that are left.
unfoldable pub fill_table : ℕ → ℕ → List ℕ
fill_table zero i = []
fill_table (suc n) i = entry_bits 8 i ∷ fill_table n (i + 1)

unfoldable pub crc32_table : List ℕ
crc32_table = fill_table 256 0

unfoldable pub crc32_loop : ℕ → List ℕ → ℕ
crc32_loop val [] = val
crc32_loop val (byte ∷ bytes) =
    crc32_loop (bit_xor (get_or crc32_table (bit_and (bit_xor val byte) 0xFF) 0) (val / 256)) bytes

unfoldable pub crc32 : List ℕ → ℕ
crc32 bytes = bit_xor (crc32_loop 0xFFFFFFFF bytes) 0xFFFFFFFF
