-- ===== src/Validate/Sequence.antt =====
-- `check_seq_gaps` on numbers that ascend.
use local_pc.Common.{List, [], arith, length, ℕ, ℤ, ◌%◌, ◌+◌, ◌-◌, ◌<◌, ◌^◌, ◌∷◌, ◌≡◌, ◌≤◌}
use local_pc.Validate.Types.{StreamId, StreamValidation}
use local_pc.Validate.Streams.{check_seq_gap, check_seq_gaps}

-- The numbers ascend and have 32 bits.
abbrev pub Ascending : List (ℕ × ℤ) → Type 0
Ascending [] = Unit {0}
Ascending (a ∷ []) = a.0 < 2 ^ 32
Ascending (a ∷ b ∷ rest) = (a.0 < b.0) × Ascending (b ∷ rest)

abbrev pub last_seq : ℕ × ℤ → List (ℕ × ℤ) → ℕ
last_seq a [] = a.0
last_seq a (b ∷ rest) = last_seq b rest

Ascending-lt : (a : ℕ × ℤ) (rest : List (ℕ × ℤ)) → Ascending (a ∷ rest) → a.0 < 2 ^ 32
Ascending-lt a [] h = h
Ascending-lt a (b ∷ rest) (h, hs) = omega (arith, h, Ascending-lt b rest hs)

Ascending-le :
    (a : ℕ × ℤ) (rest : List (ℕ × ℤ)) → Ascending (a ∷ rest) → a.0 + length rest ≤ last_seq a rest
Ascending-le a [] h = omega arith
Ascending-le a (b ∷ rest) (h, hs) = omega (arith, h, Ascending-le b rest hs)

check_seq_gap_lost :
    (id : StreamId) (a b : ℕ × ℤ) (sv : StreamValidation)
    → a.0 < b.0
    → b.0 < 2 ^ 32
    → (check_seq_gap id a b sv).packets_lost % 2 ^ 64 ≡ (sv.packets_lost + (b.0 - a.0 - 1)) % 2 ^ 64
unfolding check_seq_gap
check_seq_gap_lost id (p, u) (q, t) sv h k = ground arith

-- On the packets of a stream whose sequence numbers ascend, the packets that `check_seq_gaps` counts as
-- lost and those that were seen make up the way from the first number to the last, modulo 2 ^ 64.
pub check_seq_gaps_add_up :
    (id : StreamId) (a : ℕ × ℤ) (rest : List (ℕ × ℤ)) (sv : StreamValidation)
    → Ascending (a ∷ rest)
    → ((check_seq_gaps id (a ∷ rest) sv).packets_lost + length rest) % 2 ^ 64
      ≡ (sv.packets_lost + (last_seq a rest - a.0)) % 2 ^ 64
unfolding check_seq_gaps
check_seq_gaps_add_up id a [] sv h = omega arith
check_seq_gaps_add_up id a (b ∷ rest) sv (h, hs) = omega (
  arith,
  check_seq_gap_lost id a b sv h (Ascending-lt b rest hs),
  check_seq_gaps_add_up id b rest (check_seq_gap id a b sv) hs,
  Ascending-le b rest hs,
)
