-- ===== src/Writer/Runs.antt =====
-- Calls of `WriteContractFrame` one after the other, and what they keep.
use local_pc.Common.{
  ℕ, ◌≡◌, sym, subst, inl, inr, Bool, true, false, none, List, [], ◌∷◌, ◌++◌, All,
}
use mathlib.Core.List.{append_assoc, append-nil}
use local_pc.Writer.Chunks.{ChunkWriter, World, put_frame, write_contract_frame}
use local_pc.Writer.Steps.{Kept, rotate-keeps, rotate_ready, put-cases, write-cases, recorded}

-- The frames that a call reports as written.
abbrev pub reported : Bool → List ℕ → List (List ℕ)
reported true f = f ∷ []
reported false f = []

-- The calls, and the frames for which they returned `true`.
unfoldable pub run : ChunkWriter → List (World × List ℕ) → ChunkWriter × List (List ℕ)
run w [] = (w, [])
run w ((io, f) ∷ calls) =
    let (w', ok) = write_contract_frame w io f in
    let (w'', rest) = run w' calls in (w'', reported ok f ++ rest)

-- A law on a writer and the frames written so far, for systems on which writes do not break off.
pub record Logged {ℓ κ} (Fine : World → Type κ) (P : List (List ℕ) → ChunkWriter → Type ℓ)
    : Type (ℓ ⊔ κ) where
  pub kept : (written : List (List ℕ)) → Kept Fine (P written)
  pub whole : (io : World) → Fine io → io.write_fails ≡ none
  pub on_frame :
      (written : List (List ℕ)) (w : ChunkWriter) (io : World) (f : List ℕ)
      → Fine io
      → w.is_open ≡ true
      → P written w
      → P (written ++ f ∷ []) (recorded w io f)

module _ {ℓ κ} (Fine : World → Type κ) (P : List (List ℕ) → ChunkWriter → Type ℓ)
    (logged : Logged Fine P) where
  not_reported :
      (written : List (List ℕ)) (w : ChunkWriter) (r : ChunkWriter × Bool) (f : List ℕ)
      → r ≡ (w, false)
      → P written w
      → P (written ++ reported r.1 f) r.0
  not_reported written w r f e h =
      subst (λ t. P (written ++ reported t.1 f) t.0) (sym e)
        (subst (λ t. P t w) (sym (append-nil written)) h)

  put-keeps :
      (written : List (List ℕ)) (w : ChunkWriter) (io : World) (f : List ℕ)
      → Fine io
      → w.is_open ≡ true
      → P written w
      → P (written ++ reported (put_frame w io f).1 f) (put_frame w io f).0
  put-keeps written w io f fine o h = elim (put-cases w io f) [
    | inl e ↦ not_reported written w _ f e h
    | inr (inl (n, e, g, p)) ↦ let whole = logged.whole io fine in absurd (cc)
    | inr (inr (m, g, e, p)) ↦
        subst (λ t. P (written ++ reported t.1 f) t.0) (sym p)
          (logged.on_frame written w io f fine o h)
  ]

  write-keeps :
      (written : List (List ℕ)) (w : ChunkWriter) (io : World) (f : List ℕ)
      → Fine io
      → P written w
      → P (written ++ reported (write_contract_frame w io f).1 f) (write_contract_frame w io f).0
  write-keeps written w io f fine h = elim (write-cases w io f) [
    | inl e ↦ not_reported written _ _ f e h
    | inr (inl e) ↦
        not_reported written _ _ f e
          (rotate-keeps Fine (P written) (logged.kept written) w io fine h)
    | inr (inr (l, r, e)) ↦
        subst (λ t. P (written ++ reported t.1 f) t.0) (sym e)
          (put-keeps written _ io f fine (rotate_ready w io r).0
            (rotate-keeps Fine (P written) (logged.kept written) w io fine h))
  ]

  pub run-keeps :
      (written : List (List ℕ)) (w : ChunkWriter) (calls : List (World × List ℕ))
      → All (λ c. Fine c.0) calls
      → P written w
      → P (written ++ (run w calls).1) (run w calls).0
  unfolding run
  run-keeps written w [] fine h = subst (λ t. P t w) (sym (append-nil written)) h
  run-keeps written w ((io, f) ∷ calls) (e, fine) h =
      subst (λ t. P t (run (write_contract_frame w io f).0 calls).0)
        (append_assoc written (reported (write_contract_frame w io f).1 f) _)
        (run-keeps (written ++ reported (write_contract_frame w io f).1 f)
          (write_contract_frame w io f).0 calls fine (write-keeps written w io f e h))
