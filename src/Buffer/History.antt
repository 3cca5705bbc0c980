-- ===== src/Buffer/History.antt =====
-- A run of pushes and pops on one buffer: what went in, what came out, and what is left.
use local_pc.Common.{
  subst, zero, suc, ℕ, ◌+◌, ◌^◌, ◌%◌, ◌<◌, ◌≡◌, refl, sym, ap, ◌∙◌, arith, inl, Option, none, some,
  List, [], ◌∷◌, ◌++◌, length, length-append, length-drop, drop, All,
}
use local_pc.Buffer.Packets.{PacketBuffer, init, push, pop_front, pop}
use local_pc.Buffer.Bounds.{IsGood, push-IsGood, pop_front-IsGood, push-max_bytes}
use local_pc.Buffer.Order.{push_drops}
use mathlib.Core.List.{Sublist, append_assoc, append-nil}
use mathlib.Core.List.Sublist

pub data Call : Type 0 where
  push_call : List ℕ → Call
  pop_call : Call

pub record Trace : Type 0 where
  pub buffer : PacketBuffer
  pub pushed : List (List ℕ)
  pub popped : List (List ℕ)

abbrev option_list : Option (List ℕ) → List (List ℕ)
option_list none = []
option_list (some p) = p ∷ []

unfoldable pub step : Trace → Call → Trace
step t (push_call packet) = record t {
  buffer = push t.buffer packet;
  pushed = t.pushed ++ packet ∷ [];
}
step t pop_call =
    let (b, packet) = pop t.buffer in
    record t { buffer = b; popped = t.popped ++ option_list packet }

unfoldable pub run : Trace → List Call → Trace
run t [] = t
run t (c ∷ cs) = run (step t c) cs

abbrev pub start : ℕ → ℕ → Trace
start capacity max_bytes = record { buffer = init capacity max_bytes; pushed = []; popped = [] }

-- The packets that are pushed are byte strings in memory.
abbrev pub IsShort : Call → Type 0
IsShort (push_call packet) = length packet < 2 ^ 63
IsShort pop_call = Unit

-- What holds after every call.
pub record IsSound (t : Trace) : Type 0 where
  pub good : IsGood t.buffer
  pub limit : t.buffer.max_bytes < 2 ^ 63
  pub counter : t.buffer.dropped < 2 ^ 64
  pub order : Sublist (t.popped ++ t.buffer.queue) t.pushed
  pub count :
      (length t.popped + length t.buffer.queue + t.buffer.dropped) % 2 ^ 64
      ≡ length t.pushed % 2 ^ 64

drop-Sublist : (k : ℕ) (ps : List (List ℕ)) → Sublist (drop k ps) ps
drop-Sublist zero ps = Sublist.refl ps
drop-Sublist (suc k) [] = Sublist.refl []
drop-Sublist (suc k) (p ∷ ps) = Sublist.cons p (drop-Sublist k ps)

-- A queue that loses its front and gains a packet at its back.
order_push :
    (popped queue pushed : List (List ℕ)) (packet : List ℕ) (k : ℕ)
    → Sublist (popped ++ queue) pushed
    → Sublist (popped ++ (drop k queue ++ packet ∷ [])) (pushed ++ packet ∷ [])
order_push popped queue pushed packet k h =
    subst (λ t. Sublist t (pushed ++ packet ∷ []))
      (append_assoc popped (drop k queue) (packet ∷ []))
      (Sublist.append
        (Sublist.trans (Sublist.append (Sublist.refl popped) (drop-Sublist k queue)) h)
        (Sublist.refl (packet ∷ [])))

push-IsSound :
    (t : Trace) (packet : List ℕ)
    → IsSound t
    → length packet < 2 ^ 63
    → IsSound (step t (push_call packet))
unfolding step
push-IsSound t packet s l =
    let (k, within, queue, dropped, least, degraded) =
      push_drops t.buffer packet s.good l s.counter in
    record {
      good = push-IsGood t.buffer packet s.limit l s.good;
      limit = omega (arith, s.limit, push-max_bytes t.buffer packet s.good l);
      counter = omega (arith, dropped);
      order =
          subst (λ q. Sublist (t.popped ++ q) (t.pushed ++ packet ∷ [])) (sym queue)
            (order_push t.popped t.buffer.queue t.pushed packet k s.order);
      count = omega (
        arith,
        s.count,
        dropped,
        within,
        ap (λ (q : List (List ℕ)). length q) queue,
        length-append (drop k t.buffer.queue) (packet ∷ []),
        length-drop k t.buffer.queue,
        length-append t.pushed (packet ∷ []),
      );
    }

pop-IsSound :
    (t : Trace) (queue : List (List ℕ))
    → t.buffer.queue ≡ queue
    → IsSound t
    → IsSound (record t {
      buffer = (pop_front t.buffer queue).0;
      popped = t.popped ++ option_list (pop_front t.buffer queue).1;
    })
unfolding pop_front
pop-IsSound t [] e s = record {
  good = s.good;
  limit = s.limit;
  counter = s.counter;
  order = subst (λ q. Sublist (q ++ t.buffer.queue) t.pushed) (sym (append-nil t.popped)) s.order;
  count = omega (arith, s.count, ap (λ (q : List (List ℕ)). length q) (append-nil t.popped));
}
pop-IsSound t (packet ∷ queue) e s = record {
  good = pop_front-IsGood t.buffer (packet ∷ queue) e s.good;
  limit = s.limit;
  counter = s.counter;
  order =
      subst (λ q. Sublist q t.pushed)
        (ap (λ q. t.popped ++ q) e ∙ sym (append_assoc t.popped (packet ∷ []) queue)) s.order;
  count = omega (
    arith,
    s.count,
    length-append t.popped (packet ∷ []),
    ap (λ (q : List (List ℕ)). length q) e,
  );
}

step-IsSound : (t : Trace) (c : Call) → IsSound t → IsShort c → IsSound (step t c)
unfolding step pop
step-IsSound t (push_call packet) s l = push-IsSound t packet s l
step-IsSound t pop_call s l = pop-IsSound t t.buffer.queue refl s

run_from-IsSound : (t : Trace) (cs : List Call) → IsSound t → All IsShort cs → IsSound (run t cs)
unfolding run
run_from-IsSound t [] s h = s
run_from-IsSound t (c ∷ cs) s (hc, hcs) = run_from-IsSound (step t c) cs (step-IsSound t c s hc) hcs

start-IsSound : (capacity max_bytes : ℕ) → max_bytes < 2 ^ 63 → IsSound (start capacity max_bytes)
start-IsSound capacity max_bytes h = record {
  good = record { exact = refl; small = omega arith; bounded = inl (omega arith) };
  limit = h;
  counter = omega arith;
  order = Sublist.refl [];
  count = refl;
}

-- Whatever calls of `Push` and `Pop` are made on a new buffer whose limit of bytes is below 2 ^ 63,
-- with packets of fewer than 2 ^ 63 bytes: the buffer keeps a right count of its bytes and its two
-- limits (of which a single packet may exceed both); what came out, followed by what is left, is what
-- went in, in the same order, with packets left out; and what came out, what is left and what is
-- counted as dropped add up to what went in, modulo 2 ^ 64.
pub run-IsSound :
    (capacity max_bytes : ℕ) (calls : List Call)
    → max_bytes < 2 ^ 63
    → All IsShort calls
    → IsSound (run (start capacity max_bytes) calls)
run-IsSound capacity max_bytes calls h s =
    run_from-IsSound (start capacity max_bytes) calls (start-IsSound capacity max_bytes h) s
