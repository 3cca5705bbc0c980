-- ===== src/Load/History.antt =====
-- What a scan makes of the packets that it has gone through.
use local_pc.Common.{
  All, Bool, Bool-cases, List, Option, [], inl, inr, none, some, subst, sym, true, ◌++◌, ◌∷◌, ◌≡◌,
  ◌⊎◌,
}
use local_pc.Load.Loop.{deliver_packets, deliver_refuses, deliver_takes}
use local_pc.Load.Visits.{visit}
use local_pc.Load.Packets.{RawPacket}
use mathlib.Core.List.{append_assoc, append-nil}

-- The packets of all chunks, in order.
unfoldable pub all_packets : List (List RawPacket) → List RawPacket
all_packets [] = []
all_packets (ps ∷ pss) = ps ++ all_packets pss

-- If there is a result, it satisfies the predicate.
abbrev pub IfGives {ℓ} : {A : Type ℓ} → (A → Type 0) → Option A → Type 0
IfGives P none = Unit {0}
IfGives P (some s) = P s

-- What a handler keeps of its history, if it takes all packets until there is no state.
module _ {ℓ} {S : Type ℓ} (P : List RawPacket → S → Type 0) (Fine : RawPacket → Type 0)
    (handler : Option S → RawPacket → Option S × Bool)
    (step : (h : List RawPacket) (o : Option S) (p : RawPacket)
      → Fine p
      → IfGives (P h) o
      → (((handler o p).1 ≡ true) ⊎ ((handler o p).0 ≡ none))
        × IfGives (P (h ++ p ∷ [])) (handler o p).0) where
  deliver-history :
      (h ps : List RawPacket) (o : Option S)
      → All Fine ps
      → IfGives (P h) o
      → IfGives (P (h ++ ps)) (deliver_packets handler ps o).0
  deliver-history h [] o f k = subst (λ t. IfGives (P t) o) (sym (append-nil h)) k
  deliver-history h (p ∷ ps) o (f, fs) k =
      let (end, k') = step h o p f k in
      let rest : IfGives (P (h ++ p ∷ ps)) (deliver_packets handler ps (handler o p).0).0 =
        subst (λ t. IfGives (P t) (deliver_packets handler ps (handler o p).0).0)
          (append_assoc h (p ∷ []) ps) (deliver-history (h ++ p ∷ []) ps (handler o p).0 fs k') in
      elim (Bool-cases (handler o p).1) [
        | inl takes ↦
            subst (λ r. IfGives (P (h ++ p ∷ ps)) r.0) (sym (deliver_takes handler p ps o takes))
              rest
        | inr refuses ↦ elim end [
          | inl takes ↦ absurd (cc)
          | inr crashed ↦
              subst (λ r. IfGives (P (h ++ p ∷ ps)) r.0)
                (sym (deliver_refuses handler p ps o refuses))
                (subst (λ t. IfGives (P (h ++ p ∷ ps)) t) (sym crashed) tt)
        ]
      ]

  pub visit-history :
      (h : List RawPacket) (chunks : List (List RawPacket)) (o : Option S)
      → All (All Fine) chunks
      → IfGives (P h) o
      → IfGives (P (h ++ all_packets chunks)) (visit handler chunks o)
  unfolding all_packets
  visit-history h [] o f k = subst (λ t. IfGives (P t) o) (sym (append-nil h)) k
  visit-history h (ps ∷ chunks) o (f, fs) k =
      let o' = (deliver_packets handler ps o).0 in
      subst (λ t. IfGives (P t) (visit handler chunks o')) (append_assoc h ps (all_packets chunks))
        (visit-history (h ++ ps) chunks o' fs (deliver-history h ps o f k))
