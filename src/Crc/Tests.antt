-- ===== src/Crc/Tests.antt =====
-- Known checksums.
use local_pc.Common.{◌≢◌, arith, ℕ, ◌≡◌, refl, List, [], ◌∷◌}
use local_pc.Crc.Runtime
use local_pc.Crc.Offline
use local_pc.Crc.Equivalence.{offline_crc32-runtime_crc32}
use local_pc.Crc.Detection.{crc32_one_byte}

-- The check value of CRC-32 is the one of the text "123456789".
abbrev digits_text : List ℕ
digits_text = 0x31 ∷ 0x32 ∷ 0x33 ∷ 0x34 ∷ 0x35 ∷ 0x36 ∷ 0x37 ∷ 0x38 ∷ 0x39 ∷ []

runtime_check_value : Runtime.crc32 digits_text ≡ 0xCBF43926
unfolding Runtime.crc32 Runtime.crc_loop Runtime.crc_byte Runtime.crc_bits Runtime.crc_bit
runtime_check_value = refl

offline_check_value : Offline.crc32 digits_text ≡ 0xCBF43926
unfolding Offline.crc32 Offline.crc32_loop Offline.crc32_table Offline.fill_table Offline.entry_bits
    Offline.entry_bit
offline_check_value = refl

offline_crc32-runtime_crc32_example : Offline.crc32 digits_text ≡ Runtime.crc32 digits_text
offline_crc32-runtime_crc32_example = offline_crc32-runtime_crc32 digits_text (omega arith)

crc32_one_byte_example : Runtime.crc32 (1 ∷ 2 ∷ 3 ∷ []) ≢ Runtime.crc32 (1 ∷ 9 ∷ 3 ∷ [])
crc32_one_byte_example =
    crc32_one_byte (1 ∷ []) (3 ∷ []) 2 9 (omega arith) (omega arith) (omega arith) (omega arith)
      (omega arith)
