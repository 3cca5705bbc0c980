-- ===== src/Upload/Attempts.antt =====
-- What the attempts to put a file give.
use local_pc.Common.{==_iff, ◌==◌}
use local_pc.Common.{
  Bool-cases, List, ap, arith, false, if_both, inl, inr, pos, refl, subst, suc, sym, true, zero, ℕ,
  ℤ, ◌+◌, ◌<◌, ◌∙◌, ◌≡◌, ◌≤◌, ◌⊎◌,
}
use local_pc.Upload.Session.{PutResult, Server, attempts, is_final, no_answer, put_file, rounds}
use local_pc.Upload.Files.{LocalFile, S3Config}

-- The answer of a round k from n on: those before it do not end the attempts, and it does, or is the last.
abbrev pub IsEnd : (ℕ → PutResult) → ℕ → ℕ → PutResult → Type 0
IsEnd answer n left r =
    (k : ℕ) × (n ≤ k)
    × (k ≤ n + left)
    × (r ≡ answer k)
    × ((i : ℕ) → n ≤ i → i < k → is_final (answer i) ≡ false)
    × ((is_final (answer k) ≡ true) ⊎ (k ≡ n + left))

attempts_step :
    (answer : ℕ → PutResult) (left n : ℕ) (r : PutResult)
    → is_final (answer n) ≡ false
    → IsEnd answer (suc n) left r
    → IsEnd answer n (suc left) r
attempts_step answer left n r e (k, low, high, same, before, end') = (
  k,
  omega arith,
  omega arith,
  same,
  λ i from to. elim (Bool-cases (i == n)) [
    | inl h ↦ subst (λ j. is_final (answer j) ≡ false) (sym ((==_iff i n).0 h)) e
    | inr h ↦ before i (ground arith) to
  ],
  elim end' [ inl f ↦ inl f | inr h ↦ inr (omega arith) ],
)

attempts-IsEnd :
    (answer : ℕ → PutResult) (left n : ℕ) (last : PutResult)
    → IsEnd answer n left (attempts answer (suc left) n last)
unfolding attempts
attempts-IsEnd answer zero n last = (
  n,
  omega arith,
  omega arith,
  if_both (λ r. r ≡ answer n) (is_final (answer n)) _ _ refl refl,
  λ i from to. absurd (omega arith),
  inr (omega arith),
)
attempts-IsEnd answer (suc left) n last = elim (Bool-cases (is_final (answer n))) [
  | inl e ↦ rw e ((n, omega arith, omega arith, refl, (λ i from to. absurd (omega arith)), inl e))
  | inr e ↦ rw e (
      attempts_step answer left n (attempts answer (suc left) (suc n) (answer n)) e
        (attempts-IsEnd answer left (suc n) (answer n)))
]

-- What `put_file` gives with a number of retries that is not negative is the server's answer to an attempt
-- whose number is at most that of the retries. No attempt before it succeeded or got the status 403 or 404;
-- it did, or it is the last that the retries allow.
pub put_file_lem :
    (cfg : S3Config) (server : Server) (key : List ℕ) (f : LocalFile) (m : ℕ)
    → cfg.max_retries ≡ pos m
    → (k : ℕ) × (k ≤ m)
      × (put_file cfg server key f ≡ server key f.bytes k)
      × ((i : ℕ) → i < k → is_final (server key f.bytes i) ≡ false)
      × ((is_final (server key f.bytes k) ≡ true) ⊎ (k ≡ m))
unfolding put_file
put_file_lem cfg server key f m h =
    let all = λ (z : ℤ). attempts (server key f.bytes) (rounds z) 0 no_answer in
    let (k, low, high, same, before, end') = attempts-IsEnd (server key f.bytes) m 0 no_answer in
    (
      k,
      omega arith,
      ap all h ∙ same,
      λ i to. before i (omega arith) to,
      elim end' [ inl e ↦ inl e | inr e ↦ inr (omega arith) ],
    )
