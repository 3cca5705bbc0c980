-- ===== src/Protocol/Guard/Order.antt =====
-- What the sequence guard accepts, and how its counters account for the numbers it has passed.
use local_pc.Common.{
  ℕ, ◌+◌, ◌%◌, ◌^◌, ◌<◌, ◌≡◌, refl, ◌↔◌, ◌⊎◌, inl, inr, arith, true, false, List, [], ◌∷◌, All,
  sub32, if◌then◌else◌, Bool, suc, length, ◌++◌, length-append, inc64, sym, subst, ◌∙◌,
}
use mathlib.Core.List.{append_assoc, append-nil}
use local_pc.Wire.{IsByte}
use local_pc.Protocol.RoundTrip.{deserialize_packet-seq}
use local_pc.Protocol.Serialization.{Packet, Result, ok, throw, deserialize_packet}
use local_pc.Protocol.Validation.{
  Verdict, valid, validate_packet_verbose, IsValid, IsValid-verdict, verdict-IsValid, invalid_magic,
}
use local_pc.Protocol.Guard.{
  reason_from_validation, parse_error, bad_magic, Guard, RejectReason, init, reject, check_order,
  check_packet, validate_detailed,
}

-- `seq` comes after `last`, in the order of 32-bit numbers that wrap: at most half the range ahead.
abbrev pub IsNewer : ℕ → ℕ → Type 0
IsNewer last seq = (0 < sub32 seq last) × (sub32 seq last < 2 ^ 31)

check_order_accepts :
    (g : Guard) (seq : ℕ)
    → ((check_order g seq).1.accepted ≡ true) ↔ ((g.seen_first ≡ false) ⊎ IsNewer g.last_seq seq)
unfolding check_order
check_order_accepts g seq = ground arith

-- The guard accepts a decoded packet exactly when the packet is valid and is the first one or newer
-- than the last accepted one.
pub check_packet_accepts :
    (g : Guard) (p : Packet)
    → ((check_packet g p).1.accepted ≡ true) ↔ (
        IsValid p.header p.payload g.max_payload_bytes
        × ((g.seen_first ≡ false) ⊎ IsNewer g.last_seq p.header.seq))
unfolding check_packet
check_packet_accepts g p = ground (
  arith,
  check_order_accepts g p.header.seq,
  IsValid-verdict p.header p.payload g.max_payload_bytes,
  verdict-IsValid p.header p.payload g.max_payload_bytes,
)

-- The accepted packets and the lost ones make up the way from the first sequence number to the last.
pub record Travelled (first : ℕ) (g : Guard) : Type 0 where
  pub seen : g.seen_first ≡ true
  pub word : g.last_seq < 2 ^ 32
  pub way :
      (first + g.counters.accepted + g.counters.packets_lost) % 2 ^ 32 ≡ (g.last_seq + 1) % 2 ^ 32

-- Before the first packet nothing is counted.
pub record Fresh (g : Guard) : Type 0 where
  pub unseen : g.seen_first ≡ false
  pub none_accepted : g.counters.accepted ≡ 0
  pub none_lost : g.counters.packets_lost ≡ 0

-- The last number of a list that begins with `first`.
unfoldable pub last_of : ℕ → List ℕ → ℕ
last_of first [] = first
last_of first (q ∷ rest) = last_of q rest

-- The guard after it has accepted the packets with these sequence numbers.
abbrev pub IsAccounted : List ℕ → Guard → Type 0
IsAccounted [] g = Fresh g
IsAccounted (first ∷ rest) g =
    Travelled first g
    × (g.last_seq ≡ last_of first rest)
    × (g.counters.accepted ≡ suc (length rest) % 2 ^ 64)

-- The sequence number of a byte string that is a packet and is accepted.
unfoldable pub accepted_seq : Guard → List ℕ → List ℕ
accepted_seq g bytes = elim (deserialize_packet bytes) [
  | throw e ↦ []
  | ok p ↦ if (check_packet g p).1.accepted then p.header.seq ∷ [] else []
]

check_order-Travelled :
    (g : Guard) (seq first : ℕ)
    → seq < 2 ^ 32
    → Travelled first g
    → Travelled first (check_order g seq).0
unfolding check_order
check_order-Travelled g seq first h t = ground arith

check_order-Fresh :
    (g : Guard) (seq : ℕ) → seq < 2 ^ 32 → Fresh g → Travelled seq (check_order g seq).0
unfolding check_order
check_order-Fresh g seq h f = ground arith

last_of-snoc : (first q : ℕ) (rest : List ℕ) → last_of first (rest ++ q ∷ []) ≡ q
unfolding last_of
last_of-snoc first q [] = refl
last_of-snoc first q (r ∷ rest) = last_of-snoc r q rest

-- The number is added to the accepted ones when the packet is accepted.
abbrev noted : List ℕ → Bool → ℕ → List ℕ
noted h b seq = h ++ (if b then seq ∷ [] else [])

check_order_first :
    (g : Guard) (seq : ℕ)
    → Fresh g
    → ((check_order g seq).1.accepted ≡ true)
      × ((check_order g seq).0.last_seq ≡ seq)
      × ((check_order g seq).0.counters.accepted ≡ 1 % 2 ^ 64)
unfolding check_order
check_order_first g seq f = ground arith

-- An accepted packet is the last one and is counted; a rejected one changes neither.
check_order-cases :
    (g : Guard) (seq : ℕ)
    → (((check_order g seq).1.accepted ≡ true)
        × ((check_order g seq).0.last_seq ≡ seq)
        × ((check_order g seq).0.counters.accepted ≡ inc64 g.counters.accepted))
      ⊎ (((check_order g seq).1.accepted ≡ false)
          × ((check_order g seq).0.last_seq ≡ g.last_seq)
          × ((check_order g seq).0.counters.accepted ≡ g.counters.accepted))
unfolding check_order
check_order-cases g seq = ground arith

check_order-IsAccounted :
    (h : List ℕ) (g : Guard) (seq : ℕ)
    → seq < 2 ^ 32
    → IsAccounted h g
    → IsAccounted (noted h (check_order g seq).1.accepted seq) (check_order g seq).0
unfolding last_of
check_order-IsAccounted [] g seq k f =
    let (accepted, last, count) = check_order_first g seq f in
    rw accepted (check_order-Fresh g seq k f, last, count)
check_order-IsAccounted (first ∷ rest) g seq k (t, last, count) =
    let t' = check_order-Travelled g seq first k t in
    elim (check_order-cases g seq) [
      | inl (accepted, last', count') ↦ rw accepted (
        t',
        last' ∙ sym (last_of-snoc first seq rest),
        omega (arith, count, count', length-append rest (seq ∷ [])),
      )
      | inr (rejected, last', count') ↦
          rw (rejected, append-nil rest) (t', last' ∙ last, count' ∙ count)
    ]

reject-IsAccounted :
    (h : List ℕ) (g : Guard) (r : RejectReason) → IsAccounted h g → IsAccounted h (reject g r).0
unfolding reject
reject-IsAccounted [] g r f = record {
  unseen = f.unseen;
  none_accepted = f.none_accepted;
  none_lost = f.none_lost;
}
reject-IsAccounted (first ∷ rest) g r (t, last, count) =
    (record { seen = t.seen; word = t.word; way = t.way }, last, count)

check_verdict-IsAccounted :
    (h : List ℕ) (g : Guard) (p : Packet) (v : Verdict)
    → validate_packet_verbose p.header p.payload g.max_payload_bytes ≡ v
    → p.header.seq < 2 ^ 32
    → IsAccounted h g
    → IsAccounted (noted h (check_packet g p).1.accepted p.header.seq) (check_packet g p).0
unfolding check_packet
check_verdict-IsAccounted h g p valid e k a =
    rw (e, check_packet) (check_order-IsAccounted h g p.header.seq k a)
check_verdict-IsAccounted h g p invalid_magic e k a =
    rw (e, check_packet, reject, append-nil h) (reject-IsAccounted h g bad_magic a)
check_verdict-IsAccounted h g p v e k a =
    rw (e, check_packet, reject, append-nil h) (reject-IsAccounted h g (reason_from_validation v) a)

check_decoded-IsAccounted :
    (h : List ℕ) (g : Guard) (bytes : List ℕ) (r : Result Packet)
    → deserialize_packet bytes ≡ r
    → All IsByte bytes
    → IsAccounted h g
    → IsAccounted (h ++ accepted_seq g bytes) (validate_detailed g bytes).0
unfolding validate_detailed accepted_seq
check_decoded-IsAccounted h g bytes (ok p) e k a =
    rw (e, validate_detailed, accepted_seq)
      (check_verdict-IsAccounted h g p _ refl (deserialize_packet-seq bytes p k e) a)
check_decoded-IsAccounted h g bytes (throw x) e k a =
    rw (e, validate_detailed, accepted_seq, append-nil h) (reject-IsAccounted h g parse_error a)

-- The guard after a stream of packets.
unfoldable pub run : Guard → List (List ℕ) → Guard
run g [] = g
run g (bytes ∷ stream) = run (validate_detailed g bytes).0 stream

-- The sequence numbers that it accepts from the stream, in order.
unfoldable pub history : Guard → List (List ℕ) → List ℕ
history g [] = []
history g (bytes ∷ stream) = accepted_seq g bytes ++ history (validate_detailed g bytes).0 stream

run_from-IsAccounted :
    (h : List ℕ) (g : Guard) (stream : List (List ℕ))
    → All (All IsByte) stream
    → IsAccounted h g
    → IsAccounted (h ++ history g stream) (run g stream)
unfolding run history
run_from-IsAccounted h g [] k a = subst (λ t. IsAccounted t g) (sym (append-nil h)) a
run_from-IsAccounted h g (bytes ∷ stream) (kb, ks) a =
    let g' = (validate_detailed g bytes).0 in
    subst (λ t. IsAccounted t (run g' stream))
      (append_assoc h (accepted_seq g bytes) (history g' stream))
      (run_from-IsAccounted (h ++ accepted_seq g bytes) g' stream ks
        (check_decoded-IsAccounted h g bytes _ refl kb a))

-- Whatever stream of byte strings a new guard is given: if it has accepted no packet, then it counts
-- none as accepted and none as lost. Otherwise it has counted the accepted packets, modulo 2 ^ 64,
-- `last_seq` is the sequence number of the last accepted one, and from the sequence number of the
-- first accepted one, the accepted and the lost packets together lead to the number after
-- `last_seq`, modulo 2 ^ 32.
pub run-IsAccounted :
    (max_payload_bytes : ℕ) (stream : List (List ℕ))
    → All (All IsByte) stream
    → IsAccounted (history (init max_payload_bytes) stream) (run (init max_payload_bytes) stream)
run-IsAccounted max_payload_bytes stream k =
    run_from-IsAccounted [] (init max_payload_bytes) stream k
      (record { unseen = refl; none_accepted = refl; none_lost = refl })

-- A decoded packet that the guard has just accepted is rejected as out of order when it comes again.
pub check_packet_twice :
    (g : Guard) (p : Packet)
    → (check_packet g p).1.accepted ≡ true
    → (check_packet (check_packet g p).0 p).1
      ≡ record { accepted = false; reason = RejectReason.out_of_order }
unfolding check_packet check_order
check_packet_twice g p e = ground arith
