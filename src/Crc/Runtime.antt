-- ===== src/Crc/Runtime.antt =====
-- runtimepc/protocol/checksum.hpp: the checksum bit by bit. A `uint32_t` is a number below 2 ^ 32.
use local_pc.Common.{ℕ, zero, suc, ◌-◌, ◌/◌, bit_and, bit_xor, List, [], ◌∷◌, if◌then◌else◌, ◌==◌}

abbrev pub polynomial : ℕ
polynomial = 0xEDB88320

-- One round of the inner loop: the lowest bit is read before the shift.
unfoldable pub crc_bit : ℕ → ℕ
crc_bit crc = if bit_and crc 1 == 0 then crc / 2 else bit_xor (crc / 2) polynomial

-- The inner loop with the rounds that are left.
unfoldable pub crc_bits : ℕ → ℕ → ℕ
crc_bits zero crc = crc
crc_bits (suc n) crc = crc_bits n (crc_bit crc)

unfoldable pub crc_byte : ℕ → ℕ → ℕ
crc_byte crc byte = crc_bits 8 (bit_xor crc byte)

unfoldable pub crc_loop : ℕ → List ℕ → ℕ
crc_loop crc [] = crc
crc_loop crc (byte ∷ bytes) = crc_loop (crc_byte crc byte) bytes

-- `~crc` on 32 bits.
unfoldable pub crc32 : List ℕ → ℕ
crc32 bytes = 0xFFFFFFFF - crc_loop 0xFFFFFFFF bytes
