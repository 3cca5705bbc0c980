-- ===== src/Buffer/Bounds.antt =====
-- The buffer stays within its limits, and its count of bytes is the sum over its queue.
use local_pc.Common.{
  add64, sym, subst, ℕ, ◌+◌, ◌^◌, ◌≤◌, ◌<◌, ◌≡◌, refl, ap, ◌∙◌, ◌⊎◌, inl, inr, arith, true, false,
  List, [], ◌∷◌, ◌++◌, length, length-append, Bool-cases,
}
use local_pc.Buffer.Packets.{PacketBuffer, is_full, drop_front, make_room, push, pop_front, pop}

abbrev pub bytes_of : List (List ℕ) → ℕ
bytes_of [] = 0
bytes_of (p ∷ ps) = length p + bytes_of ps

pub bytes_of-append : (ps qs : List (List ℕ)) → bytes_of (ps ++ qs) ≡ bytes_of ps + bytes_of qs
bytes_of-append [] qs = omega arith
bytes_of-append (p ∷ ps) qs = omega (arith, bytes_of-append ps qs)

-- The count is right, and unless it is a single packet the queue keeps both limits. What the queue
-- holds is in memory, so it is less than 2 ^ 63 bytes.
pub record IsGood (b : PacketBuffer) : Type 0 where
  pub exact : b.total_bytes ≡ bytes_of b.queue
  pub small : bytes_of b.queue < 2 ^ 63
  pub bounded :
      (length b.queue ≤ 1)
      ⊎ ((length b.queue ≤ b.capacity_packets) × (bytes_of b.queue ≤ b.max_bytes))

-- What the loop of `Push` leaves: a part of the queue to which the packet can be added.
pub record HasRoom (b r : PacketBuffer) (packet : List ℕ) : Type 0 where
  pub capacity : r.capacity_packets ≡ b.capacity_packets
  pub limit : r.max_bytes ≡ b.max_bytes
  pub exact : r.total_bytes ≡ bytes_of r.queue
  pub less : bytes_of r.queue ≤ bytes_of b.queue
  pub room :
      (r.queue ≡ [])
      ⊎ ((length r.queue < r.capacity_packets) × (bytes_of r.queue + length packet ≤ r.max_bytes))

pub make_room_full :
    (b : PacketBuffer) (front : List ℕ) (queue : List (List ℕ)) (packet : List ℕ)
    → is_full b packet ≡ true
    → make_room b (front ∷ queue) packet ≡ make_room (drop_front b front queue) queue packet
unfolding make_room
make_room_full b front queue packet h = ground arith

pub make_room_fits :
    (b : PacketBuffer) (front : List ℕ) (queue : List (List ℕ)) (packet : List ℕ)
    → is_full b packet ≡ false
    → make_room b (front ∷ queue) packet ≡ b
unfolding make_room
make_room_fits b front queue packet h = ground arith

-- The test of the loop, when the sum of the bytes does not wrap.
pub is_full-false :
    (b : PacketBuffer) (packet : List ℕ)
    → b.total_bytes + length packet < 2 ^ 64
    → is_full b packet ≡ false
    → (length b.queue < b.capacity_packets) × (b.total_bytes + length packet ≤ b.max_bytes)
unfolding is_full
is_full-false b packet h e = ground arith

pub is_full-true :
    (b : PacketBuffer) (packet : List ℕ)
    → b.total_bytes + length packet < 2 ^ 64
    → is_full b packet ≡ true
    → (b.capacity_packets ≤ length b.queue) ⊎ (b.max_bytes < b.total_bytes + length packet)
unfolding is_full
is_full-true b packet h e = ground arith

pub drop_front-queue :
    (b : PacketBuffer) (front : List ℕ) (queue : List (List ℕ))
    → (drop_front b front queue).queue ≡ queue
unfolding drop_front
drop_front-queue b front queue = refl

pub drop_front-exact :
    (b : PacketBuffer) (front : List ℕ) (queue : List (List ℕ))
    → b.queue ≡ front ∷ queue
    → b.total_bytes ≡ bytes_of b.queue
    → bytes_of b.queue < 2 ^ 63
    → (drop_front b front queue).total_bytes ≡ bytes_of queue
unfolding drop_front
drop_front-exact b front queue e h k = omega (arith, ap bytes_of e)

-- What a round leaves has room when the rest of the loop leaves room.
drop_front-HasRoom :
    (b r : PacketBuffer) (front : List ℕ) (queue : List (List ℕ)) (packet : List ℕ)
    → b.queue ≡ front ∷ queue
    → HasRoom (drop_front b front queue) r packet
    → HasRoom b r packet
unfolding drop_front
drop_front-HasRoom b r front queue packet e h = record {
  capacity = h.capacity;
  limit = h.limit;
  exact = h.exact;
  less = omega (arith, h.less, ap bytes_of e);
  room = h.room;
}

make_room-HasRoom :
    (b : PacketBuffer) (queue : List (List ℕ)) (packet : List ℕ)
    → b.queue ≡ queue
    → b.total_bytes ≡ bytes_of b.queue
    → bytes_of b.queue < 2 ^ 63
    → length packet < 2 ^ 63
    → HasRoom b (make_room b queue packet) packet
unfolding make_room
make_room-HasRoom b [] packet e h k l = record {
  capacity = refl;
  limit = refl;
  exact = h;
  less = omega arith;
  room = inl e;
}
make_room-HasRoom b (front ∷ queue) packet e h k l = elim (Bool-cases (is_full b packet)) [
  | inl full ↦
      subst (λ r. HasRoom b r packet) (sym (make_room_full b front queue packet full))
        (drop_front-HasRoom b _ front queue packet e (
          make_room-HasRoom (drop_front b front queue) queue packet (drop_front-queue b front queue)
            (drop_front-exact b front queue e h k
              ∙ sym (ap bytes_of (drop_front-queue b front queue)))
            (omega (arith, ap bytes_of (drop_front-queue b front queue), ap bytes_of e)) l))
  | inr fits ↦
      subst (λ r. HasRoom b r packet) (sym (make_room_fits b front queue packet fits))
        (let (few, short) = is_full-false b packet (omega arith) fits in
          record {
            capacity = refl;
            limit = refl;
            exact = h;
            less = omega arith;
            room = inr (few, omega arith);
          })
]

-- Adding a packet where there is room keeps the limits.
add-IsGood :
    (b r : PacketBuffer) (packet : List ℕ)
    → b.max_bytes < 2 ^ 63
    → length packet < 2 ^ 63
    → HasRoom b r packet
    → IsGood (record r {
      total_bytes = add64 r.total_bytes (length packet);
      queue = r.queue ++ packet ∷ [];
    })
add-IsGood b r packet m l h =
    let sum = bytes_of-append r.queue (packet ∷ []) in
    let count = length-append r.queue (packet ∷ []) in
    let none_left : r.queue ≡ [] → (length r.queue ≡ 0) × (bytes_of r.queue ≡ 0) =
      λ e. (ap (λ (t : List (List ℕ)). length t) e, ap bytes_of e) in
    elim h.room [
      | inl e ↦
          let (no_packets, no_bytes) = none_left e in
          record {
            exact = omega (arith, h.exact, h.limit);
            small = omega (arith, h.limit);
            bounded = inl (omega arith);
          }
      | inr (few, short) ↦ record {
        exact = omega (arith, h.exact, h.limit);
        small = omega (arith, h.limit);
        bounded = inr (omega arith, omega arith);
      }
    ]

pub push-IsGood :
    (b : PacketBuffer) (packet : List ℕ)
    → b.max_bytes < 2 ^ 63
    → length packet < 2 ^ 63
    → IsGood b
    → IsGood (push b packet)
unfolding push
push-IsGood b packet m l g =
    add-IsGood b (make_room b b.queue packet) packet m l
      (make_room-HasRoom b b.queue packet refl g.exact g.small l)

pub pop_front-IsGood :
    (b : PacketBuffer) (queue : List (List ℕ))
    → b.queue ≡ queue
    → IsGood b
    → IsGood (pop_front b queue).0
unfolding pop_front
pop_front-IsGood b [] e g = g
pop_front-IsGood b (packet ∷ queue) e g = record {
  exact = omega (arith, g.exact, g.small, ap bytes_of e);
  small = omega (arith, g.small, ap bytes_of e);
  bounded = elim g.bounded [
    | inl one ↦ inl (omega (arith, ap (λ (t : List (List ℕ)). length t) e))
    | inr (few, short) ↦
        inr (omega (arith, ap (λ (t : List (List ℕ)). length t) e), omega (arith, ap bytes_of e))
  ];
}

pub pop-IsGood : (b : PacketBuffer) → IsGood b → IsGood (pop b).0
unfolding pop
pop-IsGood b g = pop_front-IsGood b b.queue refl g

pub push-max_bytes :
    (b : PacketBuffer) (packet : List ℕ)
    → IsGood b
    → length packet < 2 ^ 63
    → (push b packet).max_bytes ≡ b.max_bytes
unfolding push
push-max_bytes b packet g l = (make_room-HasRoom b b.queue packet refl g.exact g.small l).limit
