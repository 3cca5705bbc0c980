-- ===== src/Service/Gaps.antt =====
-- What the tracking of the sequence numbers counts.
use local_pc.Common.{
  refl, length, All, List, ◌≤◌, [], ◌∷◌, subst, inr, arith, inl, Bool-cases, ltb, ltb→lt, ◌-◌, ◌%◌,
  ℕ, ◌+◌, ◌^◌, ◌<◌, ◌≡◌, true,
}
use local_pc.Service.Diagnostics.{on_out_of_order, on_seq_gap}
use local_pc.Service.Track.{reset, track_all, track_contract_seq, Tracker}

-- `n` numbers have been tracked since `first`, which was the first: those that came in order and those
-- that are missing make up the way to the last one. `lost` and `late` stand for the counters before.
pub record IsTracked (lost late first n : ℕ) (t : Tracker) : Type 0 where
  pub begun : t.seq_initialized ≡ true
  pub word : t.last_seq < 2 ^ 64
  pub missing : ℕ
  pub old : ℕ
  pub lost_now : t.diagnostics.packets_lost ≡ (lost + missing) % 2 ^ 64
  pub late_now : t.diagnostics.out_of_order ≡ (late + old) % 2 ^ 64
  pub way : first + n + missing ≡ t.last_seq + 1 + old

-- A number that is newer than the last one, by one or by more, and one that is not.
track_next :
    (t : Tracker) (seq : ℕ)
    → t.seq_initialized ≡ true
    → t.last_seq < seq
    → seq < 2 ^ 64
    → t.diagnostics.packets_lost < 2 ^ 64
    → ((track_contract_seq t seq).seq_initialized ≡ true)
      × ((track_contract_seq t seq).last_seq ≡ seq)
      × ((track_contract_seq t seq).diagnostics.packets_lost
          ≡ (t.diagnostics.packets_lost + (seq - t.last_seq - 1)) % 2 ^ 64)
      × ((track_contract_seq t seq).diagnostics.out_of_order ≡ t.diagnostics.out_of_order)
unfolding track_contract_seq on_seq_gap
track_next t seq b l w p = ground arith

track_late :
    (t : Tracker) (seq : ℕ)
    → t.seq_initialized ≡ true
    → seq ≤ t.last_seq
    → ((track_contract_seq t seq).seq_initialized ≡ true)
      × ((track_contract_seq t seq).last_seq ≡ t.last_seq)
      × ((track_contract_seq t seq).diagnostics.packets_lost ≡ t.diagnostics.packets_lost)
      × ((track_contract_seq t seq).diagnostics.out_of_order
          ≡ (t.diagnostics.out_of_order + 1) % 2 ^ 64)
unfolding track_contract_seq on_out_of_order
track_late t seq b l = ground arith

track-IsTracked :
    (lost late first n : ℕ) (t : Tracker) (seq : ℕ)
    → seq < 2 ^ 64
    → IsTracked lost late first n t
    → IsTracked lost late first (n + 1) (track_contract_seq t seq)
track-IsTracked lost late first n t seq w h = elim (Bool-cases (ltb t.last_seq seq)) [
  | inl newer ↦
      let (begun, last, lost_now, late_now) =
        track_next t seq h.begun (ltb→lt _ _ newer) w (omega (arith, h.lost_now)) in
      record {
        begun = begun;
        word = omega arith;
        missing = h.missing + (seq - t.last_seq - 1);
        old = h.old;
        lost_now = omega (arith, h.lost_now);
        late_now = omega (arith, h.late_now);
        way = omega (arith, h.way, ltb→lt _ _ newer);
      }
  | inr late ↦
      let (begun, last, lost_now, late_now) = track_late t seq h.begun (ground arith) in
      record {
        begun = begun;
        word = omega (arith, h.word);
        missing = h.missing;
        old = h.old + 1;
        lost_now = omega (arith, h.lost_now);
        late_now = omega (arith, h.late_now);
        way = omega (arith, h.way);
      }
]

run_from-IsTracked :
    (lost late first n : ℕ) (t : Tracker) (seqs : List ℕ)
    → All (λ s. s < 2 ^ 64) seqs
    → IsTracked lost late first n t
    → IsTracked lost late first (n + length seqs) (track_all t seqs)
unfolding track_all
run_from-IsTracked lost late first n t [] h k =
    subst (λ m. IsTracked lost late first m t) (omega arith) k
run_from-IsTracked lost late first n t (seq ∷ seqs) (w, h) k =
    subst (λ m. IsTracked lost late first m (track_all (track_contract_seq t seq) seqs))
      (omega arith)
      (run_from-IsTracked lost late first (n + 1) (track_contract_seq t seq) seqs h
        (track-IsTracked lost late first n t seq w k))

track_first :
    (t : Tracker) (first : ℕ)
    → first < 2 ^ 64
    → t.diagnostics.packets_lost < 2 ^ 64
    → t.diagnostics.out_of_order < 2 ^ 64
    → IsTracked t.diagnostics.packets_lost t.diagnostics.out_of_order first 1
        (track_contract_seq (reset t) first)
unfolding track_contract_seq reset
track_first t first w p o = record {
  begun = refl;
  word = w;
  missing = 0;
  old = 0;
  lost_now = omega arith;
  late_now = omega arith;
  way = omega arith;
}

-- After a start of a recording, whatever 64-bit sequence numbers are tracked, at least one: the numbers
-- that were tracked and those that were added to the count of lost packets, less those that were added
-- to the count out of order, make up exactly the way from the first number to the last one that was
-- in order. The counters are taken modulo 2 ^ 64.
pub track_all-IsTracked :
    (t : Tracker) (first : ℕ) (seqs : List ℕ)
    → All (λ s. s < 2 ^ 64) (first ∷ seqs)
    → t.diagnostics.packets_lost < 2 ^ 64
    → t.diagnostics.out_of_order < 2 ^ 64
    → IsTracked t.diagnostics.packets_lost t.diagnostics.out_of_order first
        (1 + length seqs)
        (track_all (reset t) (first ∷ seqs))
unfolding track_all
track_all-IsTracked t first seqs (w, h) p o =
    run_from-IsTracked t.diagnostics.packets_lost t.diagnostics.out_of_order first 1
      (track_contract_seq (reset t) first) seqs h (track_first t first w p o)

-- The last number is the largest that was tracked.
track_grows :
    (t : Tracker) (seq : ℕ)
    → t.seq_initialized ≡ true
    → (t.last_seq ≤ (track_contract_seq t seq).last_seq)
      × (seq ≤ (track_contract_seq t seq).last_seq)
      × ((track_contract_seq t seq).seq_initialized ≡ true)
unfolding track_contract_seq on_seq_gap on_out_of_order
track_grows t seq b = ground arith

track_all_from :
    (t : Tracker) (seqs : List ℕ)
    → t.seq_initialized ≡ true
    → (t.last_seq ≤ (track_all t seqs).last_seq) × All (λ s. s ≤ (track_all t seqs).last_seq) seqs
unfolding track_all
track_all_from t [] b = (omega arith, tt)
track_all_from t (seq ∷ seqs) b =
    let (grows, least, begun) = track_grows t seq b in
    let (more, all) = track_all_from (track_contract_seq t seq) seqs begun in
    (omega (arith, grows, more), (omega (arith, least, more), all))

track_begins :
    (t : Tracker) (first : ℕ) → (track_contract_seq (reset t) first).seq_initialized ≡ true
unfolding track_contract_seq reset
track_begins t first = refl

track_begins_at : (t : Tracker) (first : ℕ) → (track_contract_seq (reset t) first).last_seq ≡ first
unfolding track_contract_seq reset
track_begins_at t first = refl

-- After a start of a recording, no tracked number is larger than the last one that was in order.
pub track_all_largest :
    (t : Tracker) (first : ℕ) (seqs : List ℕ)
    → All (λ s. s ≤ (track_all (reset t) (first ∷ seqs)).last_seq) (first ∷ seqs)
unfolding track_all
track_all_largest t first seqs =
    let (more, all) =
      track_all_from (track_contract_seq (reset t) first) seqs (track_begins t first) in
    (omega (arith, more, track_begins_at t first), all)
