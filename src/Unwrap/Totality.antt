-- ===== src/Unwrap/Totality.antt =====
-- The unwrapper ends on every stream, and what it hands on is valid.
use local_pc.Common.{
  is_empty, All, All-append, Bool, Bool-cases, List, Option, [], ap, arith, false, if_both, inl,
  inr, length, length-append, length-drop, ltb, none, not, refl, some, subst, suc, take, true, zero,
  ℕ, ◌%◌, ◌++◌, ◌+◌, ◌<◌, ◌==◌, ◌^◌, ◌||◌, ◌∷◌, ◌≡◌, ◌≤◌,
}
use local_pc.Unwrap.Stream.{
  Unwrap, UnwrapPolicy, auto, consume, consume_auto, consume_frame, consume_loop, consume_packet,
  consume_round, drop_front, emit, feed, init, off, on, passes, reject, reject_crc, see_frame,
  starts_with_packet_magic, starts_with_sof, try_consume_packet_only, try_consume_wrapped_frame,
}
use local_pc.Protocol.Serialization.{Result, deserialize_header, ok, throw}
use local_pc.Protocol.Types.{PacketHeader, packet_magic}
use local_pc.Wire.Structs.{field}

-- What the unwrapper keeps: the packets that it has handed on pass the checks, and are counted.
pub record IsSafe (max : ℕ) (u : Unwrap) : Type 0 where
  pub limit : u.max_payload_bytes ≡ max
  pub valid : All (λ p. passes max p ≡ true) u.emitted
  pub counted : u.stats.packets_emitted ≡ length u.emitted % 2 ^ 64

-- A round that goes on has dropped a byte.
record Rounds (max : ℕ) (u : Unwrap) (r : Unwrap × Bool) : Type 0 where
  safe : IsSafe max r.0
  shrinks : r.1 ≡ true → length r.0.buffer < length u.buffer

module _ (max : ℕ) where
  drop_front-IsSafe :
      (n : ℕ) (lost : Bool) (u : Unwrap) → IsSafe max u → IsSafe max (drop_front n lost u)
  unfolding drop_front
  drop_front-IsSafe n true u h = record { limit = h.limit; valid = h.valid; counted = h.counted }
  drop_front-IsSafe n false u h = record { limit = h.limit; valid = h.valid; counted = h.counted }

  reject-IsSafe : (u : Unwrap) → IsSafe max u → IsSafe max (reject u)
  unfolding reject
  reject-IsSafe u h = record { limit = h.limit; valid = h.valid; counted = h.counted }

  reject_crc-IsSafe : (u : Unwrap) → IsSafe max u → IsSafe max (reject_crc u)
  unfolding reject_crc
  reject_crc-IsSafe u h = record { limit = h.limit; valid = h.valid; counted = h.counted }

  not_empty-lt : (xs : List ℕ) → is_empty xs ≡ false → 0 < length xs
  not_empty-lt [] e = absurd (cc)
  not_empty-lt (x ∷ xs) e = omega arith

  emit-IsSafe : (packet : List ℕ) (u : Unwrap) → IsSafe max u → IsSafe max (emit packet u)
  unfolding emit
  emit-IsSafe packet u h = elim (Bool-cases (passes u.max_payload_bytes packet)) [
    | inl e ↦ rw e (record {
      limit = h.limit;
      valid =
          All-append _ u.emitted (packet ∷ []) h.valid
            (subst (λ m. passes m packet ≡ true) h.limit e, tt);
      counted = omega (arith, h.counted, length-append u.emitted (packet ∷ []));
    })
    | inr e ↦ rw e (record { limit = h.limit; valid = h.valid; counted = h.counted })
  ]

  emit-buffer : (packet : List ℕ) (u : Unwrap) → (emit packet u).buffer ≡ u.buffer
  unfolding emit
  emit-buffer packet u = ground arith

  stay : (u : Unwrap) → IsSafe max u → Rounds max u (u, false)
  stay u h = record { safe = h; shrinks = λ e. absurd (cc) }

  -- A byte is dropped.
  skip :
      (u v : Unwrap)
      → 0 < length u.buffer
      → v.buffer ≡ u.buffer
      → IsSafe max v
      → Rounds max u (drop_front 1 true v, true)
  skip u v l e h = record {
    safe = drop_front-IsSafe 1 true v h;
    shrinks = λ t. unfold drop_front in rw e (omega (arith, length-drop 1 u.buffer));
  }

  -- A frame is taken out of the buffer.
  take_out :
      (u : Unwrap) (n : ℕ) (packet : List ℕ)
      → 0 < n
      → n ≤ length u.buffer
      → IsSafe max u
      → Rounds max u (emit packet (see_frame (drop_front n false u)), true)
  unfolding see_frame drop_front
  take_out u n packet p l h = record {
    safe = emit-IsSafe packet _ (record { limit = h.limit; valid = h.valid; counted = h.counted });
    shrinks = λ t. omega (
      arith,
      length-drop n u.buffer,
      ap (λ (b : List ℕ). length b) (emit-buffer packet (see_frame (drop_front n false u))),
    );
  }

  consume_packet-Rounds :
      (header : PacketHeader) (u : Unwrap)
      → 0 < length u.buffer
      → IsSafe max u
      → Rounds max u (consume_packet header u)
  unfolding consume_packet
  consume_packet-Rounds header u l h =
      let strange =
        not (header.magic == packet_magic) || ltb u.max_payload_bytes header.payload_size in
      elim (Bool-cases strange) [
        | inl e ↦ rw e (
            skip u (reject u) l refl
              (record { limit = h.limit; valid = h.valid; counted = h.counted }))
        | inr e ↦ elim (Bool-cases (ltb (length u.buffer) (34 + header.payload_size))) [
          | inl short ↦ rw (e, short) (stay u h)
          | inr full ↦
              rw (e, full) (take_out u (34 + header.payload_size) _ (omega arith) (ground arith) h)
        ]
      ]

  try_consume_packet_only-Rounds :
      (u : Unwrap) → IsSafe max u → Rounds max u (try_consume_packet_only u)
  unfolding try_consume_packet_only reject
  try_consume_packet_only-Rounds u h = elim (Bool-cases (ltb (length u.buffer) 34)) [
    | inl e ↦ rw e (stay u h)
    | inr e ↦ rw e (go (ground arith) (deserialize_header (take 34 u.buffer)))
  ]
    where
      go :
          (l : 0 < length u.buffer) (r : Result PacketHeader)
          → Rounds max u (elim r [
            | throw e ↦ (drop_front 1 true (reject u), true)
            | ok header ↦ consume_packet header u
          ])
      go l (throw e) = skip u (reject u) l refl (reject-IsSafe u h)
      go l (ok header) = consume_packet-Rounds header u l h

  consume_frame-Rounds :
      (n : ℕ) (u : Unwrap)
      → 4 + n ≤ length u.buffer
      → IsSafe max u
      → Rounds max u (consume_frame n u)
  unfolding consume_frame
  consume_frame-Rounds n u l h =
      if_both (Rounds max u) _ _ _
        (skip u (reject_crc u) (omega arith) (unfold reject_crc in refl) (reject_crc-IsSafe u h))
        (take_out u (4 + n) _ (omega arith) l h)

  try_consume_wrapped_frame-Rounds :
      (u : Unwrap) → IsSafe max u → Rounds max u (try_consume_wrapped_frame u)
  unfolding try_consume_wrapped_frame
  try_consume_wrapped_frame-Rounds u h =
      let n = field 2 2 u.buffer in
      elim (Bool-cases (not (starts_with_sof u.buffer) || ltb (length u.buffer) 4)) [
        | inl e ↦ rw e (stay u h)
        | inr e ↦ elim (Bool-cases (ltb n 39 || ltb 4096 (4 + n))) [
          | inl wrong ↦ rw (e, wrong) (skip u (reject u) (ground arith) refl (reject-IsSafe u h))
          | inr fits ↦ elim (Bool-cases (ltb (length u.buffer) (4 + n))) [
            | inl short ↦ rw (e, fits, short) (stay u h)
            | inr full ↦ rw (e, fits, full) (consume_frame-Rounds n u (ground arith) h)
          ]
        ]
      ]

  consume_auto-Rounds : (u : Unwrap) → IsSafe max u → Rounds max u (consume_auto u)
  unfolding consume_auto
  consume_auto-Rounds u h = elim (Bool-cases (is_empty u.buffer)) [
    | inl e ↦ rw e (stay u h)
    | inr e ↦ rw e (
        if_both (Rounds max u) (starts_with_sof u.buffer) _ _ (try_consume_wrapped_frame-Rounds u h)
          (if_both (Rounds max u) (starts_with_packet_magic u.buffer) _ _
            (try_consume_packet_only-Rounds u h) (skip u u (not_empty-lt u.buffer e) refl h)))
  ]

  consume_round-Rounds :
      (policy : UnwrapPolicy) (u : Unwrap) → IsSafe max u → Rounds max u (consume_round policy u)
  unfolding consume_round
  consume_round-Rounds off u h = try_consume_packet_only-Rounds u h
  consume_round-Rounds on u h = try_consume_wrapped_frame-Rounds u h
  consume_round-Rounds auto u h = consume_auto-Rounds u h

  consume_loop-IsSafe :
      (fuel : ℕ) (u : Unwrap)
      → length u.buffer < fuel
      → IsSafe max u
      → (u' : Unwrap) × (consume_loop fuel u ≡ some u') × IsSafe max u'
  unfolding consume_loop
  consume_loop-IsSafe zero u l h = absurd (omega arith)
  consume_loop-IsSafe (suc fuel) u l h =
      let r = consume_round-Rounds u.policy u h in
      elim (Bool-cases (consume_round u.policy u).1) [
        | inl e ↦
            rw (e, consume_loop)
              (consume_loop-IsSafe fuel (consume_round u.policy u).0 (omega (arith, r.shrinks e))
                r.safe)
        | inr e ↦ rw (e, consume_loop) ((consume_round u.policy u).0, refl, r.safe)
      ]

-- The calls of `Feed`, one after the other.
abbrev pub feed_all : List (List ℕ) → Unwrap → Option Unwrap
feed_all [] u = some u
feed_all (bytes ∷ chunks) u = elim (feed bytes u) [ none ↦ none | some u' ↦ feed_all chunks u' ]

feed_all-IsSafe :
    (max : ℕ) (chunks : List (List ℕ)) (u : Unwrap)
    → IsSafe max u
    → (u' : Unwrap) × (feed_all chunks u ≡ some u') × IsSafe max u'
unfolding feed consume
feed_all-IsSafe max [] u h = (u, refl, h)
feed_all-IsSafe max (bytes ∷ chunks) u h =
    let (v, e, k) =
      consume_loop-IsSafe max (suc (length (u.buffer ++ bytes)))
        (record u { buffer = u.buffer ++ bytes }) (omega arith)
        (record { limit = h.limit; valid = h.valid; counted = h.counted }) in
    let (w, e', k') = feed_all-IsSafe max chunks v k in (w, rw (e, feed_all) e', k')

-- In every mode, whatever bytes are fed and in whatever pieces: the loops end, and the handler has got
-- only packets that are decoded and that the validation accepts, as many as `packets_emitted` says,
-- modulo 2 ^ 64.
pub feed_all-init-IsSafe :
    (policy : UnwrapPolicy) (max : ℕ) (chunks : List (List ℕ))
    → (u : Unwrap) × (feed_all chunks (init policy max) ≡ some u) × IsSafe max u
feed_all-init-IsSafe policy max chunks =
    feed_all-IsSafe max chunks (init policy max)
      (record { limit = refl; valid = tt; counted = refl })
