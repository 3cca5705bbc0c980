-- ===== src/Unwrap/Tests.antt =====
-- Streams for the unwrapper.
use local_pc.Common.{List, Option, [], none, refl, some, ℕ, ◌∷◌, ◌≡◌}
use local_pc.Unwrap.Stream.{
  Unwrap, auto, consume, consume_auto, consume_loop, consume_round, drop_front, feed, finalize,
  init, off, on, starts_with_packet_magic, starts_with_sof, try_consume_wrapped_frame,
}
use local_pc.Unwrap.Totality.{IsSafe, feed_all, feed_all-init-IsSafe}
use local_pc.Parse.Sample.{sample_bytes}

feed_all-init-IsSafe_example :
    (u : Unwrap) × (feed_all (sample_bytes ∷ sample_bytes ∷ []) (init off 8192) ≡ some u)
    × IsSafe 8192 u
feed_all-init-IsSafe_example = feed_all-init-IsSafe off 8192 (sample_bytes ∷ sample_bytes ∷ [])

-- In the mode `on` a byte that starts no frame is never passed.
stuck :
    feed_all ((1 ∷ []) ∷ (0xA5 ∷ 0x5A ∷ []) ∷ []) (init on 8192)
    ≡ some (record (init on 8192) { buffer = 1 ∷ 0xA5 ∷ 0x5A ∷ [] })
unfolding feed consume consume_loop consume_round try_consume_wrapped_frame starts_with_sof
stuck = refl

-- In the mode `auto` the first byte of a frame is dropped when it comes alone.
abbrev left : Option Unwrap → List ℕ
left none = 7 ∷ []
left (some u) = u.buffer

cut_start : left (feed_all ((0xA5 ∷ []) ∷ []) (init auto 8192)) ≡ []
unfolding feed consume consume_loop consume_round consume_auto starts_with_sof
    starts_with_packet_magic drop_front
cut_start = refl

at_end : finalize (init off 8192) ≡ init off 8192
unfolding finalize
at_end = refl
