-- ===== src/Buffer/Order.antt =====
-- What the buffer gives out: the packets in their order, without those that it has counted as dropped.
use local_pc.Common.{
  subst, suc, zero, ℕ, ◌+◌, ◌^◌, ◌%◌, ◌≤◌, ◌<◌, ◌≡◌, refl, sym, ap, ◌∙◌, ◌⊎◌, inl, inr, arith, true,
  List, [], ◌∷◌, ◌++◌, length, drop, Bool-cases,
}
use local_pc.Buffer.Packets.{PacketBuffer, is_full, drop_front, make_room, push}
use local_pc.Buffer.Bounds.{
  bytes_of, IsGood, make_room_full, make_room_fits, is_full-true, drop_front-queue,
  drop_front-exact,
}

-- There is no room for a packet behind the given queue.
abbrev pub IsOver : PacketBuffer → List ℕ → List (List ℕ) → Type 0
IsOver b packet queue =
    (b.capacity_packets ≤ length queue) ⊎ (b.max_bytes < bytes_of queue + length packet)

-- What a loop of `Push` has dropped: `k` packets at the front, each with no room behind it.
pub record Cut (b r : PacketBuffer) (packet : List ℕ) : Type 0 where
  pub count : ℕ
  pub within : count ≤ length b.queue
  pub queue : r.queue ≡ drop count b.queue
  pub dropped : r.dropped ≡ (b.dropped + count) % 2 ^ 64
  pub least : (j : ℕ) → j < count → IsOver b packet (drop j b.queue)
  pub degraded : (0 < count → r.degraded ≡ true) × (count ≡ 0 → r.degraded ≡ b.degraded)

zero_or : (n : ℕ) → (n ≡ 0) ⊎ (0 < n)
zero_or zero = inl refl
zero_or (suc n) = inr (omega arith)

drop_front-dropped :
    (b : PacketBuffer) (front : List ℕ) (queue : List (List ℕ))
    → (drop_front b front queue).dropped < 2 ^ 64
unfolding drop_front
drop_front-dropped b front queue = omega arith

refl-Cut : (b : PacketBuffer) (packet : List ℕ) → b.dropped < 2 ^ 64 → Cut b b packet
refl-Cut b packet d = record {
  count = 0;
  within = omega arith;
  queue = refl;
  dropped = omega arith;
  least = λ j h. absurd (omega arith);
  degraded = (λ h. absurd (omega arith), λ h. refl);
}

-- A queue with one more packet at its front, cut one packet later.
least_front :
    (b : PacketBuffer) (front : List ℕ) (whole queue : List (List ℕ)) (packet : List ℕ)
    (count j : ℕ)
    → whole ≡ front ∷ queue
    → IsOver b packet whole
    → ((i : ℕ) → i < count → IsOver b packet (drop i queue))
    → j < suc count
    → IsOver b packet (drop j whole)
least_front b front whole queue packet count zero e over least h = over
least_front b front whole queue packet count (suc j) e over least h =
    subst (λ t. IsOver b packet (drop (suc j) t)) (sym e) (least j (omega arith))

drop_front-Cut :
    (b r : PacketBuffer) (front : List ℕ) (queue : List (List ℕ)) (packet : List ℕ)
    → b.queue ≡ front ∷ queue
    → IsOver b packet b.queue
    → Cut (drop_front b front queue) r packet
    → Cut b r packet
unfolding drop_front
drop_front-Cut b r front queue packet e over c = record {
  count = suc c.count;
  within = omega (arith, c.within, ap (λ (t : List (List ℕ)). length t) e);
  queue = c.queue ∙ sym (ap (drop (suc c.count)) e);
  dropped = omega (arith, c.dropped);
  least = λ j h. least_front b front b.queue queue packet c.count j e over c.least h;
  degraded = (
    λ h. elim (zero_or c.count) [ inl z ↦ c.degraded.1 z | inr p ↦ c.degraded.0 p ],
    λ h. absurd (omega arith),
  );
}

make_room-Cut :
    (b : PacketBuffer) (queue : List (List ℕ)) (packet : List ℕ)
    → b.queue ≡ queue
    → b.total_bytes ≡ bytes_of b.queue
    → bytes_of b.queue < 2 ^ 63
    → length packet < 2 ^ 63
    → b.dropped < 2 ^ 64
    → Cut b (make_room b queue packet) packet
unfolding make_room
make_room-Cut b [] packet e h k l d = refl-Cut b packet d
make_room-Cut b (front ∷ queue) packet e h k l d = elim (Bool-cases (is_full b packet)) [
  | inl full ↦
      subst (λ r. Cut b r packet) (sym (make_room_full b front queue packet full))
        (drop_front-Cut b _ front queue packet e
          (subst (λ t. (b.capacity_packets ≤ length b.queue) ⊎ (b.max_bytes < t + length packet)) h
            (is_full-true b packet (omega arith) full))
          (make_room-Cut (drop_front b front queue) queue packet (drop_front-queue b front queue)
            (drop_front-exact b front queue e h k
              ∙ sym (ap bytes_of (drop_front-queue b front queue)))
            (omega (arith, ap bytes_of (drop_front-queue b front queue), ap bytes_of e)) l
            (drop_front-dropped b front queue)))
  | inr fits ↦
      subst (λ r. Cut b r packet) (sym (make_room_fits b front queue packet fits))
        (refl-Cut b packet d)
]

-- `Push` of a packet of fewer than 2 ^ 63 bytes on a buffer within its limits, whose counter of dropped
-- packets is below 2 ^ 64, drops packets at the front of the queue, each of them with no room behind
-- it, adds the new packet at the back, and counts what it has dropped modulo 2 ^ 64; it marks the
-- buffer as degraded when it drops any and else leaves the mark.
pub push_drops :
    (b : PacketBuffer) (packet : List ℕ)
    → IsGood b
    → length packet < 2 ^ 63
    → b.dropped < 2 ^ 64
    → (k : ℕ) × (k ≤ length b.queue)
      × ((push b packet).queue ≡ drop k b.queue ++ packet ∷ [])
      × ((push b packet).dropped ≡ (b.dropped + k) % 2 ^ 64)
      × ((j : ℕ) → j < k → IsOver b packet (drop j b.queue))
      × ((0 < k → (push b packet).degraded ≡ true)
          × (k ≡ 0 → (push b packet).degraded ≡ b.degraded))
unfolding push
push_drops b packet g l d =
    let c = make_room-Cut b b.queue packet refl g.exact g.small l d in
    (c.count, c.within, ap (λ t. t ++ packet ∷ []) c.queue, c.dropped, c.least, c.degraded)
