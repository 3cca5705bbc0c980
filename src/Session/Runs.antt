-- ===== src/Session/Runs.antt =====
-- Whole histories of a session manager: when it is idle.
use local_pc.Common.{
  [], ◌∷◌, Bool-cases, All, ◌↔◌, true, false, Bool, List, ap, ◌∙◌, none, ◌≡◌, ◌≢◌, inl, inr, refl,
  arith,
}
use local_pc.Session.Manager.{
  init, Text, SessionState, idle, SessionManager, state_of, stop, mark_stopped, set_error,
  set_source_ip,
}
use local_pc.Session.States.{
  IsLive, Edge, begin, ask_stop, close, fail, stay, Call, start_call, stop_call, mark_stopped_call,
  set_error_call, set_source_ip_call, apply, apply-Edge, start_begins,
}

Edge-not_idle : (s t : SessionState) → Edge s t → s ≢ idle → t ≢ idle
Edge-not_idle s _ (begin _ h) ne = λ e. absurd (cc)
Edge-not_idle _ _ ask_stop ne = λ e. absurd (cc)
Edge-not_idle s _ (close _ h) ne = λ e. absurd (cc)
Edge-not_idle s _ (fail _ h) ne = λ e. absurd (cc)
Edge-not_idle s _ (stay _) ne = ne

unfoldable pub run : SessionManager → List Call → SessionManager
run m [] = m
run m (c ∷ cs) = run (apply m c) cs

abbrev pub is_start : Call → Bool
is_start (start_call scenario ip session_id now) = true
is_start (stop_call reason) = false
is_start (mark_stopped_call reason now) = false
is_start (set_error_call reason) = false
is_start (set_source_ip_call ip) = false

run-not_idle :
    (m : SessionManager) (cs : List Call)
    → IsLive m
    → state_of m ≢ idle
    → state_of (run m cs) ≢ idle
unfolding run
run-not_idle m [] h ne = ne
run-not_idle m (c ∷ cs) h ne =
    let (edge, live) = apply-Edge m c h in
    run-not_idle (apply m c) cs live (Edge-not_idle _ _ edge ne)

-- Without a start, nothing happens to a manager that has no session.
no_start : (m : SessionManager) (c : Call) → m.active ≡ none → is_start c ≡ false → apply m c ≡ m
unfolding apply stop mark_stopped set_error set_source_ip
no_start m (start_call scenario ip session_id now) e f = absurd (cc)
no_start m (stop_call reason) e f = ground arith
no_start m (mark_stopped_call reason now) e f = ground arith
no_start m (set_error_call reason) e f = ground arith
no_start m (set_source_ip_call ip) e f = ground arith

started :
    (m : SessionManager) (c : Call)
    → state_of m ≡ idle
    → is_start c ≡ true
    → state_of (apply m c) ≢ idle
unfolding apply
started m (start_call scenario ip session_id now) e f =
    λ e'. absurd (ground (arith, (start_begins m scenario ip session_id now (λ r. absurd (cc))).1))
started m (stop_call reason) e f = absurd (cc)
started m (mark_stopped_call reason now) e f = absurd (cc)
started m (set_error_call reason) e f = absurd (cc)
started m (set_source_ip_call ip) e f = absurd (cc)

idle_of : (m : SessionManager) → m.active ≡ none → state_of m ≡ idle
unfolding state_of
idle_of m h = ground arith

run_idle :
    (m : SessionManager) (cs : List Call)
    → m.active ≡ none
    → (state_of (run m cs) ≡ idle) ↔ All (λ c. is_start c ≡ false) cs
unfolding run
run_idle m [] h = (λ e. tt, λ a. idle_of m h)
run_idle m (c ∷ cs) h = elim (Bool-cases (is_start c)) [
  | inl e ↦ (
    λ i.
        absurd
          (run-not_idle (apply m c) cs (apply-Edge m c (λ z. h)).1 (started m c (idle_of m h) e) i),
    λ (f, a). absurd (cc),
  )
  | inr e ↦
      let same = no_start m c h e in
      let (to, from) = run_idle (apply m c) cs (ap (λ (t : SessionManager). t.active) same ∙ h) in
      (λ i. (e, to i), λ (f, a). from a)
]

-- A manager is idle exactly as long as `Start` was never called on it: a session that has ended, in
-- whatever way, leaves a manager that is closed, stopping or in error, never idle.
pub run_idle_iff :
    (data_root : Text) (cs : List Call)
    → (state_of (run (init data_root) cs) ≡ idle) ↔ All (λ c. is_start c ≡ false) cs
run_idle_iff data_root cs = run_idle (init data_root) cs refl
