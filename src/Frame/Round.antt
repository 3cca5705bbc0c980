-- ===== src/Frame/Round.antt =====
-- One round of the walk over a byte string: which frame it passes, and how it leaves.
use local_pc.Common.{
  inr, inl, ◌⊎◌, ℕ, ◌<◌, ◌≤◌, ◌≡◌, refl, arith, Bool, true, false, none, List, [], ◌∷◌, ◌++◌,
  length, ltb, Bool-cases, Option-cases,
}
use local_pc.Frame.Io.{
  Round, again, leave, round, Parsed, frame, at_end, failed, parse_frame_at,
  validate_contract_frame, Walked,
}
use local_pc.Frame.Parse.{IsFrame}

-- Frames back to back.
abbrev pub concat : List (List ℕ) → List ℕ
concat [] = []
concat (f ∷ fs) = f ++ concat fs

-- The handler on frame after frame, until it refuses one.
abbrev pub deliver {ℓ} : {S : Type ℓ} → (S → List ℕ → S × Bool) → List (List ℕ) → S → S × Bool
deliver handler [] s = (s, true)
deliver handler (f ∷ fs) s =
    let (s', go_on) = handler s f in
    elim go_on [ true ↦ deliver handler fs s' | false ↦ (s', false) ]

pub deliver_one {ℓ} :
    {S : Type ℓ} (handler : S → List ℕ → S × Bool) (f : List ℕ) (fs : List (List ℕ)) (s s' : S)
    (b : Bool)
    → handler s f ≡ (s', b)
    → deliver handler (f ∷ fs) s ≡ elim b [ true ↦ deliver handler fs s' | false ↦ (s', false) ]
deliver_one handler f fs s s' b e =
    λ i. elim (e i).1 [ true ↦ deliver handler fs (e i).0 | false ↦ ((e i).0, false) ]

pub Round-cases {ℓ} :
    {S : Type ℓ} (r : Round S)
    → ((w : Walked S) × (r ≡ leave w)) ⊎ ((next : ℕ) × (s : S) × (r ≡ again next s))
Round-cases (leave w) = inl (w, refl)
Round-cases (again next s) = inr (next, s, refl)

pub length-eq_nil : (xs : List ℕ) → length xs ≡ 0 → xs ≡ []
length-eq_nil [] h = refl
length-eq_nil (x ∷ xs) h = absurd (omega arith)

module _ {ℓ} {S : Type ℓ} (crc32 : List ℕ → ℕ) (bytes : List ℕ) (max : ℕ)
    (handler : S → List ℕ → S × Bool) where
  -- What a round says of the frame at its offset.
  pub round_end :
      (offset : ℕ) (s : S)
      → length bytes ≤ offset
      → round crc32 bytes max handler offset s
        ≡ leave (record { state = s; result = true; error = none })
  unfolding round
  round_end offset s h = ground arith

  pub round_go :
      (offset next : ℕ) (s s' : S) (f : List ℕ)
      → offset < length bytes
      → parse_frame_at bytes offset max ≡ frame f next
      → IsFrame crc32 max f
      → handler s f ≡ (s', true)
      → round crc32 bytes max handler offset s ≡ again next s'
  unfolding round
  round_go offset next s s' f h p v e = ground arith

  pub round_refuse :
      (offset next : ℕ) (s s' : S) (f : List ℕ)
      → offset < length bytes
      → parse_frame_at bytes offset max ≡ frame f next
      → IsFrame crc32 max f
      → handler s f ≡ (s', false)
      → round crc32 bytes max handler offset s
        ≡ leave (record { state = s'; result = false; error = none })
  unfolding round
  round_refuse offset next s s' f h p v e = ground arith

  -- A frame that the handler answers in the given way stands at the offset.
  abbrev pub Handled : ℕ → ℕ → S → S → Bool → List ℕ → Type ℓ
  Handled offset next s s' go_on f =
      (parse_frame_at bytes offset max ≡ frame f next)
      × IsFrame crc32 max f
      × (handler s f ≡ (s', go_on))

  -- A round goes on only past a frame that the handler took.
  pub round_again :
      (p : Parsed) (offset next : ℕ) (s s' : S)
      → parse_frame_at bytes offset max ≡ p
      → round crc32 bytes max handler offset s ≡ again next s'
      → (f : List ℕ) × Handled offset next s s' true f
  unfolding round
  round_again (frame f n) offset next s s' q e = (f, ground arith)
  round_again at_end offset next s s' q e = absurd (ground arith)
  round_again (failed x) offset next s s' q e = absurd (ground arith)

  -- A round leaves with the state that it had, or past a frame that the handler refused.
  pub round_leave :
      (p : Parsed) (offset : ℕ) (s : S) (w : Walked S)
      → parse_frame_at bytes offset max ≡ p
      → round crc32 bytes max handler offset s ≡ leave w
      → ((w.state ≡ s) × (w.result ≡ true → length bytes ≤ offset))
        ⊎ ((f : List ℕ) × (next : ℕ) × Handled offset next s w.state false f × (w.result ≡ false))
  unfolding round
  round_leave (frame f n) offset s w q e = elim (Bool-cases (handler s f).1) [
    | inl takes ↦ inl (ground arith)
    | inr refuses ↦ elim (Option-cases (validate_contract_frame crc32 f max)) [
      | inl v ↦ elim (Bool-cases (ltb offset (length bytes))) [
        | inl inside ↦ inr (f, n, (q, v, ground arith), ground arith)
        | inr outside ↦ inl (ground arith)
      ]
      | inr (x, v) ↦ inl (ground arith)
    ]
  ]
  round_leave at_end offset s w q e = inl (ground arith)
  round_leave (failed x) offset s w q e = inl (ground arith)
