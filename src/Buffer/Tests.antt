-- ===== src/Buffer/Tests.antt =====
-- A buffer of two packets and ten bytes, on which the laws of the buffer are applied.
use local_pc.Common.{
  inr, ℕ, ◌≡◌, refl, ◌≤◌, ◌<◌, ◌+◌, ◌%◌, ◌^◌, arith, true, List, [], ◌∷◌, ◌++◌, drop, length,
}
use local_pc.Buffer.Packets.{
  PacketBuffer, init, push, pop, pop_front, make_room, is_full, drop_front,
}
use local_pc.Buffer.Bounds.{IsGood}
use local_pc.Buffer.Order.{IsOver, push_drops}
use local_pc.Buffer.History.{Call, push_call, pop_call, start, run, step, IsSound, run-IsSound}

abbrev two : PacketBuffer
unfolding push make_room is_full drop_front
two = push (push (init 2 10) (1 ∷ 2 ∷ 3 ∷ [])) (4 ∷ 5 ∷ [])

two-IsGood : IsGood two
unfolding push make_room is_full drop_front
two-IsGood = record { exact = refl; small = omega arith; bounded = inr (omega arith, omega arith) }

push_drops_example :
    (k : ℕ) × (k ≤ length two.queue)
    × ((push two (6 ∷ [])).queue ≡ drop k two.queue ++ (6 ∷ []) ∷ [])
    × ((push two (6 ∷ [])).dropped ≡ (two.dropped + k) % 2 ^ 64)
    × ((j : ℕ) → j < k → IsOver two (6 ∷ []) (drop j two.queue))
    × ((0 < k → (push two (6 ∷ [])).degraded ≡ true)
        × (k ≡ 0 → (push two (6 ∷ [])).degraded ≡ two.degraded))
unfolding push make_room is_full drop_front
push_drops_example = push_drops two (6 ∷ []) two-IsGood (omega arith) (omega arith)

abbrev calls : List Call
calls =
    push_call (1 ∷ 2 ∷ 3 ∷ [])
    ∷ push_call (4 ∷ 5 ∷ [])
    ∷ pop_call
    ∷ push_call (6 ∷ [])
    ∷ push_call (7 ∷ [])
    ∷ pop_call
    ∷ []

calls_give : (run (start 2 10) calls).popped ≡ (1 ∷ 2 ∷ 3 ∷ []) ∷ (6 ∷ []) ∷ []
unfolding run step push pop pop_front make_room is_full drop_front
calls_give = refl

run-IsSound_example : IsSound (run (start 2 10) calls)
run-IsSound_example =
    run-IsSound 2 10 calls (omega arith)
      (omega arith, (omega arith, (tt, (omega arith, (omega arith, (tt, tt))))))
