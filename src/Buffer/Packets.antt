-- ===== src/Buffer/Packets.antt =====
-- `PacketBuffer`. A `BufferedPacket` is its bytes; the mutex makes each operation one step.
use local_pc.Common.{
  ℕ, Bool, true, false, ◌||◌, Option, none, some, List, [], ◌∷◌, ◌++◌, length, ltb, leb,
  if◌then◌else◌, inc64, add64, sub64,
}

pub record PacketBuffer : Type 0 where
  pub capacity_packets : ℕ
  pub max_bytes : ℕ
  pub queue : List (List ℕ)
  pub total_bytes : ℕ
  pub dropped : ℕ
  pub degraded : Bool

abbrev pub init : ℕ → ℕ → PacketBuffer
init capacity_packets max_bytes = record {
  capacity_packets = capacity_packets;
  max_bytes = max_bytes;
  queue = [];
  total_bytes = 0;
  dropped = 0;
  degraded = false;
}

-- The condition of the loop of `Push`, for a queue that is not empty.
unfoldable pub is_full : PacketBuffer → List ℕ → Bool
is_full b packet =
    leb b.capacity_packets (length b.queue) || ltb b.max_bytes (add64 b.total_bytes (length packet))

-- The body of the loop: the packet at the front goes, `queue` is left.
unfoldable pub drop_front : PacketBuffer → List ℕ → List (List ℕ) → PacketBuffer
drop_front b front queue = record b {
  total_bytes = sub64 b.total_bytes (length front);
  queue = queue;
  dropped = inc64 b.dropped;
  degraded = true;
}

-- The loop, by recursion on the queue of `b`, which is the second argument.
unfoldable pub make_room : PacketBuffer → List (List ℕ) → List ℕ → PacketBuffer
make_room b [] packet = b
make_room b (front ∷ queue) packet =
    let rest = make_room (drop_front b front queue) queue packet in
    if is_full b packet then rest else b

unfoldable pub push : PacketBuffer → List ℕ → PacketBuffer
push b packet =
    let room = make_room b b.queue packet in
    record room {
      total_bytes = add64 room.total_bytes (length packet);
      queue = room.queue ++ packet ∷ [];
    }

-- `Pop` on the queue of `b`.
unfoldable pub pop_front : PacketBuffer → List (List ℕ) → PacketBuffer × Option (List ℕ)
pop_front b [] = (b, none)
pop_front b (packet ∷ queue) =
    (record b { queue = queue; total_bytes = sub64 b.total_bytes (length packet) }, some packet)

unfoldable pub pop : PacketBuffer → PacketBuffer × Option (List ℕ)
unfolding pop_front
pop b = pop_front b b.queue

unfoldable pub size : PacketBuffer → ℕ
size b = length b.queue
