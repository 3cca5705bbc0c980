-- ===== src/Parse/Sample.antt =====
-- A packet in bytes, of a source.
use local_pc.Common.{ℕ, List, [], ◌∷◌}

abbrev pub sample_bytes : List ℕ
sample_bytes =
    72 ∷ 79 ∷ 87 ∷ 69 ∷ 1 ∷ 0 ∷ 1 ∷ 0 ∷ 101 ∷ 0 ∷ 2 ∷ 0 ∷ 0 ∷ 0 ∷ 232 ∷ 3 ∷ 0 ∷ 0 ∷ 0 ∷ 0 ∷ 0 ∷ 0
    ∷ 5 ∷ 0 ∷ 0 ∷ 0 ∷ 0 ∷ 0 ∷ 0 ∷ 0 ∷ 102 ∷ 32 ∷ 117 ∷ 48 ∷ 16 ∷ 32 ∷ []
