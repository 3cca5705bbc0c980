-- ===== src/Frame/Walk.antt =====
-- The walk over a byte string visits exactly the frames that it consists of.
use local_pc.Common.{
  drop-append, length-drop, inr, inl, ◌⊎◌, ℕ, zero, suc, ◌+◌, ◌<◌, ◌≤◌, ◌≡◌, refl, sym, ap, ◌∙◌,
  arith, Bool, true, false, Option, none, some, List, [], ◌∷◌, ◌++◌, length, drop, All, Bool-cases,
  length-append,
}
use local_pc.Frame.Io.{
  count_contract_frames, count_frame, again, leave, round, frame, parse_frame_at, Walked, walk,
  for_each_contract_frame,
}
use local_pc.Wire.Structs.{drop_more}
use mathlib.Core.Option.{some-injective}
use mathlib.Core.List.{append-nil, append_assoc}
use local_pc.Frame.Parse.{
  IsFrame, IsShaped, IsFrame-IsShaped, parse_frame_at_front, parse_frame_at_bounds,
}
use local_pc.Frame.Round.{
  concat, deliver, deliver_one, Round-cases, length-eq_nil, Handled, round_end, round_go,
  round_refuse, round_again, round_leave,
}

module _ {ℓ} {S : Type ℓ} (crc32 : List ℕ → ℕ) (bytes : List ℕ) (max : ℕ)
    (handler : S → List ℕ → S × Bool) where
  -- What the walk has done with the bytes from `offset` on when it ends with `w`: it has given the
  -- handler frames that stand there back to back, and on the result `true` these are all the bytes.
  abbrev pub Covered : List ℕ → S → Walked S → Type ℓ
  Covered rest s w =
      (fs : List (List ℕ)) × (tail : List ℕ) × All (IsFrame crc32 max) fs
      × (concat fs ++ tail ≡ rest)
      × (w.state ≡ (deliver handler fs s).0)
      × (w.result ≡ true → tail ≡ [])

  -- One more round in front: the frame that it passed, and what the rest of the walk covers.
  covers_more :
      (offset next : ℕ) (s s' : S) (w : Walked S)
      → offset ≤ length bytes
      → (f : List ℕ) × Handled crc32 bytes max handler offset next s s' true f
      → Covered (drop next bytes) s' w
      → Covered (drop offset bytes) s w
  covers_more offset next s s' w k (f, (p, v, e)) (fs, tail, h, joined, same, done) = (
    f ∷ fs,
    tail,
    (v, h),
    append_assoc f (concat fs) tail
        ∙ ap (λ t. f ++ t) joined
        ∙ (parse_frame_at_bounds max offset bytes f next p).3,
    same ∙ ap (λ (p : S × Bool). p.0) (sym (deliver_one handler f fs s s' true e)),
    done,
  )

  covers_leave :
      (offset : ℕ) (s : S) (w : Walked S)
      → offset ≤ length bytes
      → ((w.state ≡ s) × (w.result ≡ true → length bytes ≤ offset))
        ⊎ ((f : List ℕ) × (next : ℕ) × Handled crc32 bytes max handler offset next s w.state false f
            × (w.result ≡ false))
      → Covered (drop offset bytes) s w
  covers_leave offset s w k (inl (same, done)) = (
    [],
    drop offset bytes,
    tt,
    refl,
    same,
    λ t. length-eq_nil _ (omega (arith, length-drop offset bytes, done t)),
  )
  covers_leave offset s w k (inr (f, next, (p, v, e), no_result)) = (
    f ∷ [],
    drop next bytes,
    (v, tt),
    ap (λ t. t ++ drop next bytes) (append-nil f)
        ∙ (parse_frame_at_bounds max offset bytes f next p).3,
    ap (λ (p : S × Bool). p.0) (sym (deliver_one handler f [] s w.state false e)),
    λ t. absurd (cc),
  )

  walk_leave :
      (fuel offset : ℕ) (s : S) (w : Walked S)
      → round crc32 bytes max handler offset s ≡ leave w
      → walk crc32 bytes max handler (suc fuel) offset s ≡ some w
  unfolding walk
  walk_leave fuel offset s w e = rw (e, walk)

  walk_again :
      (fuel offset next : ℕ) (s s' : S)
      → round crc32 bytes max handler offset s ≡ again next s'
      → walk crc32 bytes max handler (suc fuel) offset s ≡ walk crc32 bytes max handler fuel next s'
  unfolding walk
  walk_again fuel offset next s s' e = rw (e, walk)

  walk_covers :
      (fuel offset : ℕ) (s : S) (w : Walked S)
      → offset ≤ length bytes
      → walk crc32 bytes max handler fuel offset s ≡ some w
      → Covered (drop offset bytes) s w
  unfolding walk
  walk_covers zero offset s w k e = absurd (cc)
  walk_covers (suc fuel) offset s w k e =
      elim (Round-cases (round crc32 bytes max handler offset s)) [
        | inl (v, l) ↦ covers_leave offset s w k (
            round_leave crc32 bytes max handler _ offset s w refl
              (l ∙ ap leave (some-injective v w (sym (walk_leave fuel offset s v l) ∙ e))))
        | inr (next, s', g) ↦
            let (f, (p, v, h)) = round_again crc32 bytes max handler _ offset next s s' refl g in
            covers_more offset next s s' w k (f, (p, v, h))
              (walk_covers fuel next s' w (parse_frame_at_bounds max offset bytes f next p).2
                (sym (walk_again fuel offset next s s' g) ∙ e))
      ]

  walk_total :
      (fuel offset : ℕ) (s : S)
      → offset ≤ length bytes
      → length bytes < fuel + offset
      → (w : Walked S) × (walk crc32 bytes max handler fuel offset s ≡ some w)
  walk_total zero offset s k l = absurd (omega arith)
  walk_total (suc fuel) offset s k l = elim (Round-cases (round crc32 bytes max handler offset s)) [
    | inl (w, e) ↦ (w, walk_leave fuel offset s w e)
    | inr (next, s', g) ↦
        let (f, (p, v, h)) = round_again crc32 bytes max handler _ offset next s s' refl g in
        let (long, step, fits, joined) = parse_frame_at_bounds max offset bytes f next p in
        let (w, e) = walk_total fuel next s' fits (omega arith) in
        (w, walk_again fuel offset next s s' g ∙ e)
  ]

  -- The walk over frames that stand back to back from `offset` on.
  walk_frames :
      (fs : List (List ℕ)) (fuel offset : ℕ) (s : S)
      → All (IsFrame crc32 max) fs
      → offset ≤ length bytes
      → drop offset bytes ≡ concat fs
      → length (concat fs) < fuel
      → walk crc32 bytes max handler fuel offset s
        ≡ some (record {
          state = (deliver handler fs s).0;
          result = (deliver handler fs s).1;
          error = none;
        })
  unfolding walk
  walk_frames fs zero offset s h k e l = absurd (omega arith)
  walk_frames [] (suc fuel) offset s h k e l = walk_leave fuel offset s _ (
      round_end crc32 bytes max handler offset s
        (omega (arith, length-drop offset bytes, ap (λ (t : List ℕ). length t) e)))
  walk_frames (f ∷ fs) (suc fuel) offset s (hf, hfs) k e l = elim (Bool-cases (handler s f).1) [
    | inl takes ↦
        walk_again fuel offset (offset + length f) s (handler s f).0 (
          round_go crc32 bytes max handler offset (offset + length f) s (handler s f).0 f inside cut
            hf (pair_eq takes))
        ∙ walk_frames fs fuel (offset + length f) (handler s f).0 hfs (omega (arith, room)) behind
            (omega (arith, shaped.long, length-append f (concat fs)))
        ∙ ap outcome (sym (deliver_one handler f fs s _ true (pair_eq takes)))
    | inr refuses ↦
        walk_leave fuel offset s _ (
          round_refuse crc32 bytes max handler offset (offset + length f) s (handler s f).0 f inside
            cut hf (pair_eq refuses))
        ∙ ap outcome (sym (deliver_one handler f fs s _ false (pair_eq refuses)))
  ]
    where
      shaped : IsShaped max f
      shaped = IsFrame-IsShaped crc32 max f hf

      room : length bytes ≡ offset + (length f + length (concat fs))
      room = omega (
        arith,
        length-drop offset bytes,
        ap (λ (t : List ℕ). length t) e,
        length-append f (concat fs),
      )

      inside : offset < length bytes
      inside = omega (arith, shaped.long, room)

      cut : parse_frame_at bytes offset max ≡ frame f (offset + length f)
      cut = parse_frame_at_front max offset bytes f (concat fs) shaped e k

      behind : drop (offset + length f) bytes ≡ concat fs
      behind =
          drop_more (length f) offset bytes
          ∙ ap (drop (length f)) e
          ∙ drop-append (length f) f (concat fs) refl

      outcome : S × Bool → Option (Walked S)
      outcome p = some (record { state = p.0; result = p.1; error = none })

      pair_eq : {b : Bool} → (handler s f).1 ≡ b → handler s f ≡ ((handler s f).0, b)
      pair_eq p = λ i. ((handler s f).0, p i)

-- The contract of the walk, for any handler: if the bytes are frames back to back, every one of them
-- accepted by `ValidateContractFrame`, then the walk ends, without an error, having given the handler
-- exactly these frames in their order up to the first one that it refused, and its result tells
-- whether none was refused.
pub for_each-concat {ℓ} :
    {S : Type ℓ} (crc32 : List ℕ → ℕ) (max : ℕ) (handler : S → List ℕ → S × Bool)
    (fs : List (List ℕ)) (s : S)
    → All (IsFrame crc32 max) fs
    → for_each_contract_frame crc32 (concat fs) max handler s
      ≡ some (record {
        state = (deliver handler fs s).0;
        result = (deliver handler fs s).1;
        error = none;
      })
unfolding for_each_contract_frame
for_each-concat crc32 max handler fs s h =
    walk_frames crc32 (concat fs) max handler fs (suc (length (concat fs))) 0 s h (omega arith) refl
      (omega arith)

-- The walk ends on every byte string and for every handler: the fuel of its model suffices.
pub for_each_total {ℓ} :
    {S : Type ℓ} (crc32 : List ℕ → ℕ) (bytes : List ℕ) (max : ℕ) (handler : S → List ℕ → S × Bool)
    (s : S)
    → (w : Walked S) × (for_each_contract_frame crc32 bytes max handler s ≡ some w)
unfolding for_each_contract_frame
for_each_total crc32 bytes max handler s =
    walk_total crc32 bytes max handler (suc (length bytes)) 0 s (omega arith) (omega arith)

-- Whatever the bytes are, the frames that the handler was given are frames that
-- `ValidateContractFrame` accepts and that stand back to back at the start of the bytes, and if the
-- result is `true` they are all of the bytes.
pub for_each_covers {ℓ} :
    {S : Type ℓ} (crc32 : List ℕ → ℕ) (bytes : List ℕ) (max : ℕ) (handler : S → List ℕ → S × Bool)
    (s : S) (w : Walked S)
    → for_each_contract_frame crc32 bytes max handler s ≡ some w
    → (fs : List (List ℕ)) × (tail : List ℕ) × All (IsFrame crc32 max) fs
      × (concat fs ++ tail ≡ bytes)
      × (w.state ≡ (deliver handler fs s).0)
      × (w.result ≡ true → tail ≡ [])
unfolding for_each_contract_frame
for_each_covers crc32 bytes max handler s w e =
    walk_covers crc32 bytes max handler (suc (length bytes)) 0 s w (omega arith) e

deliver-count_frame :
    (crc32 : List ℕ → ℕ) (fs : List (List ℕ)) (n : ℕ)
    → (deliver (count_frame crc32) fs n).0 ≡ n + length fs
unfolding count_frame
deliver-count_frame crc32 [] n = omega arith
deliver-count_frame crc32 (f ∷ fs) n = omega (arith, deliver-count_frame crc32 fs (n + 1))

-- `CountContractFramesInBytes` on accepted frames back to back gives their number.
pub count-concat :
    (crc32 : List ℕ → ℕ) (max : ℕ) (fs : List (List ℕ))
    → All (IsFrame crc32 max) fs
    → count_contract_frames crc32 (concat fs) max ≡ some (length fs)
unfolding count_contract_frames
count-concat crc32 max fs h =
    rw (for_each-concat crc32 max (count_frame crc32) fs 0 h, count_contract_frames)
      (ap some (deliver-count_frame crc32 fs 0 ∙ omega arith))
