-- ===== src/Pipeline/Losses.antt =====
-- The packets that a stream of sequence numbers shows as lost.
use local_pc.Common.{
  Bool-cases, List, [], add64, ap, arith, if◌then◌else◌, inc32, inc64, inl, inr, ltb, refl, sub32,
  ℕ, ℤ, ◌++◌, ◌∙◌, ◌∷◌, ◌≡◌,
}
use local_pc.Validate.Types.{StreamId, StreamValidation}
use local_pc.Validate.Streams.{check_seq_gap, check_seq_gaps}

-- The packets lost, after a pair of neighbours.
abbrev pub lost_step : ℕ × ℤ → ℕ × ℤ → ℕ → ℕ
lost_step a b n = if ltb (inc32 a.0) b.0 then add64 n (sub32 b.0 (inc32 a.0)) else n

abbrev pub lost_over : List (ℕ × ℤ) → ℕ → ℕ
lost_over [] n = n
lost_over (a ∷ []) n = n
lost_over (a ∷ b ∷ rest) n = lost_over (b ∷ rest) (lost_step a b n)

pub check_seq_gap_lost :
    (id : StreamId) (a b : ℕ × ℤ) (sv : StreamValidation)
    → (check_seq_gap id a b sv).packets_lost ≡ lost_step a b sv.packets_lost
unfolding check_seq_gap
check_seq_gap_lost id (m, s) (n, t) sv = elim (Bool-cases (ltb (inc32 m) n)) [
  | inl e ↦ rw e refl
  | inr e ↦ rw e refl
]

pub check_seq_gaps_lost :
    (id : StreamId) (l : List (ℕ × ℤ)) (sv : StreamValidation)
    → (check_seq_gaps id l sv).packets_lost ≡ lost_over l sv.packets_lost
unfolding check_seq_gaps
check_seq_gaps_lost id [] sv = refl
check_seq_gaps_lost id (a ∷ []) sv = refl
check_seq_gaps_lost id (a ∷ b ∷ rest) sv =
    check_seq_gaps_lost id (b ∷ rest) (check_seq_gap id a b sv)
    ∙ ap (lost_over (b ∷ rest)) (check_seq_gap_lost id a b sv)

lost_step_inc : (a b : ℕ × ℤ) (n : ℕ) → lost_step a b (inc64 n) ≡ inc64 (lost_step a b n)
lost_step_inc a b n = ground arith

pub lost_over_inc : (l : List (ℕ × ℤ)) (n : ℕ) → lost_over l (inc64 n) ≡ inc64 (lost_over l n)
lost_over_inc [] n = refl
lost_over_inc (a ∷ []) n = refl
lost_over_inc (a ∷ b ∷ rest) n =
    ap (lost_over (b ∷ rest)) (lost_step_inc a b n) ∙ lost_over_inc (b ∷ rest) (lost_step a b n)

pub lost_over-snoc :
    (l : List (ℕ × ℤ)) (a b : ℕ × ℤ) (n : ℕ)
    → lost_over ((l ++ a ∷ []) ++ b ∷ []) n ≡ lost_step a b (lost_over (l ++ a ∷ []) n)
lost_over-snoc [] a b n = refl
lost_over-snoc (c ∷ []) a b n = refl
lost_over-snoc (c ∷ d ∷ rest) a b n = lost_over-snoc (d ∷ rest) a b (lost_step c d n)
