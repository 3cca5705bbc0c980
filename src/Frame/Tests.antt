-- ===== src/Frame/Tests.antt =====
-- Frames on which the laws of the walk are applied, with the checksum of the runtime side.
use local_pc.Common.{ℕ, ◌≡◌, refl, List, [], ◌∷◌, ◌++◌}
use local_pc.Crc.Runtime.{crc32}
use local_pc.Frame.Header.{encode_header}
use local_pc.Wire.{encode_fields, le_bytes}
use local_pc.Crc.Detection.{crc32_one_byte}
use local_pc.Frame.Io.{
  Walked, walk, round, parse_frame_at, truncated_frame_header, payload_crc_mismatch,
  for_each_contract_frame, count_frame, validate_contract_frame,
}
use local_pc.Frame.Parse.{IsFrame}
use local_pc.Frame.Round.{concat, deliver}
use local_pc.Frame.Walk.{for_each-concat, for_each_total, for_each_covers}
use local_pc.Frame.Corruption.{validate_damaged}
use local_pc.Common.{All, Bool, true, false, none, some, arith}
use local_pc.Frame.Sample.{sample_header, sample_frame, sample_frame-IsFrame}

-- The handler that keeps the frames.
abbrev keep : List (List ℕ) → List ℕ → List (List ℕ) × Bool
keep seen f = (seen ++ f ∷ [], true)

for_each-concat_example :
    for_each_contract_frame crc32 (concat (sample_frame ∷ sample_frame ∷ [])) 8192 keep []
    ≡ some (record { state = sample_frame ∷ sample_frame ∷ []; result = true; error = none })
for_each-concat_example =
    for_each-concat crc32 8192 keep (sample_frame ∷ sample_frame ∷ []) []
      (sample_frame-IsFrame, (sample_frame-IsFrame, tt))

for_each_total_example :
    (w : Walked ℕ) × (for_each_contract_frame crc32 (0x45 ∷ 0x47 ∷ []) 8192 (count_frame crc32) 0
      ≡ some w)
for_each_total_example = for_each_total crc32 (0x45 ∷ 0x47 ∷ []) 8192 (count_frame crc32) 0

abbrev short_walk : Walked ℕ
short_walk = record { state = 0; result = false; error = some truncated_frame_header }

short_walk_runs :
    for_each_contract_frame crc32 (0x45 ∷ 0x47 ∷ []) 8192 (count_frame crc32) 0 ≡ some short_walk
unfolding for_each_contract_frame walk round parse_frame_at
short_walk_runs = refl

for_each_covers_example :
    (fs : List (List ℕ)) × (tail : List ℕ) × All (IsFrame crc32 8192) fs
    × (concat fs ++ tail ≡ 0x45 ∷ 0x47 ∷ [])
    × (short_walk.state ≡ (deliver (count_frame crc32) fs 0).0)
    × (short_walk.result ≡ true → tail ≡ [])
for_each_covers_example =
    for_each_covers crc32 (0x45 ∷ 0x47 ∷ []) 8192 (count_frame crc32) 0 short_walk short_walk_runs

validate_damaged_example :
    validate_contract_frame crc32
      ((encode_header sample_header ++ 1 ∷ 2 ∷ []) ++ 77 ∷ 4 ∷ 5 ∷ [])
      8192
    ≡ some payload_crc_mismatch
unfolding encode_header encode_fields le_bytes
validate_damaged_example =
    validate_damaged crc32 8192 (encode_header sample_header ++ 1 ∷ 2 ∷ []) (4 ∷ 5 ∷ []) 3 77
      crc32_one_byte (omega arith) (omega arith) (omega arith) (omega arith) (omega arith)
      (omega arith) sample_frame-IsFrame
