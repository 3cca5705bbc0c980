-- ===== src/Session/States.antt =====
-- The machine of a session's states, and that every operation moves along its edges.
use local_pc.Common.{ap, ◌∙◌, none, sym, subst, ◌≡◌, ◌≢◌, ◌⊎◌, inl, inr, refl, arith}
use local_pc.Session.Manager.{
  RuntimeErrorCode, Text, SessionState, idle, recording, stopping, closed, error, ok, session_busy,
  not_recording, ScenarioMetadata, SessionManager, state_of, start, stop, mark_stopped, set_error,
  set_source_ip,
}

-- The operations that change the manager, with what they read.
pub data Call : Type 0 where
  start_call : ScenarioMetadata → Text → Text → Text → Call
  stop_call : Text → Call
  mark_stopped_call : Text → Text → Call
  set_error_call : Text → Call
  set_source_ip_call : Text → Call

unfoldable pub apply : SessionManager → Call → SessionManager
unfolding set_source_ip
apply m (start_call scenario ip session_id now) = (start m scenario ip session_id now).0
apply m (stop_call reason) = (stop m reason).0
apply m (mark_stopped_call reason now) = mark_stopped m reason now
apply m (set_error_call reason) = set_error m reason
apply m (set_source_ip_call ip) = set_source_ip m ip

-- The edges: a recording begins from any state but its own, is asked to stop, and is closed or fails;
-- a session that is closed or has failed may be marked again.
pub data Edge : SessionState → SessionState → Type 0 where
  begin : (s : SessionState) → s ≢ recording → Edge s recording
  ask_stop : Edge recording stopping
  close : (s : SessionState) → s ≢ idle → Edge s closed
  fail : (s : SessionState) → s ≢ idle → Edge s error
  stay : (s : SessionState) → Edge s s

IsRecording-cases : (s : SessionState) → (s ≡ recording) ⊎ (s ≢ recording)
IsRecording-cases idle = inr (λ e. absurd (cc))
IsRecording-cases recording = inl refl
IsRecording-cases stopping = inr (λ e. absurd (cc))
IsRecording-cases closed = inr (λ e. absurd (cc))
IsRecording-cases error = inr (λ e. absurd (cc))

-- Only a manager without a session is idle.
abbrev pub IsLive : SessionManager → Type 0
IsLive m = state_of m ≡ idle → m.active ≡ none

unchanged : (m n : SessionManager) → n ≡ m → IsLive m → Edge (state_of m) (state_of n) × IsLive n
unchanged m n e h =
    subst (λ t. Edge (state_of m) (state_of t) × IsLive t) (sym e) (stay (state_of m), h)

-- An edge between equal states.
subst-Edge : {s t s' t' : SessionState} → s ≡ s' → t ≡ t' → Edge s' t' → Edge s t
subst-Edge {s} {t} {s'} {t'} p q e =
    subst (λ a. Edge a t) (sym p) (subst (λ b. Edge s' b) (sym q) e)

start_busy :
    (m : SessionManager) (scenario : ScenarioMetadata) (ip session_id now : Text)
    → state_of m ≡ recording
    → start m scenario ip session_id now ≡ (m, session_busy)
unfolding start
start_busy m scenario ip session_id now e = ground arith

pub start_begins :
    (m : SessionManager) (scenario : ScenarioMetadata) (ip session_id now : Text)
    → state_of m ≢ recording
    → ((start m scenario ip session_id now).1 ≡ ok)
      × (state_of (start m scenario ip session_id now).0 ≡ recording)
unfolding start
start_begins m scenario ip session_id now ne = ground arith

pub stop_stops :
    (m : SessionManager) (reason : Text)
    → state_of m ≡ recording
    → ((stop m reason).1 ≡ ok) × (state_of (stop m reason).0 ≡ stopping)
unfolding stop state_of
stop_stops m reason e = ground arith

pub stop_refuses :
    (m : SessionManager) (reason : Text)
    → state_of m ≢ recording
    → stop m reason ≡ (m, not_recording)
unfolding stop state_of
stop_refuses m reason ne = ground arith

-- An operation that touches the active session, and none when there is none.
pub mark_moves :
    (m : SessionManager) (reason now : Text)
    → ((state_of m ≢ idle) × (state_of (mark_stopped m reason now) ≡ closed))
      ⊎ ((m.active ≡ none → mark_stopped m reason now ≡ m) × (state_of m ≡ idle))
unfolding mark_stopped state_of
mark_moves m reason now = ground arith

pub error_moves :
    (m : SessionManager) (reason : Text)
    → ((state_of m ≢ idle) × (state_of (set_error m reason) ≡ error))
      ⊎ ((m.active ≡ none → set_error m reason ≡ m) × (state_of m ≡ idle))
unfolding set_error state_of
error_moves m reason = ground arith

source_ip_keeps : (m : SessionManager) (ip : Text) → state_of (set_source_ip m ip) ≡ state_of m
unfolding set_source_ip state_of
source_ip_keeps m ip = ground arith

source_ip-IsLive : (m : SessionManager) (ip : Text) → IsLive m → IsLive (set_source_ip m ip)
unfolding set_source_ip state_of
source_ip-IsLive m ip h = ground arith

not_idle : {s : SessionState} (m : SessionManager) → state_of m ≡ s → s ≢ idle → IsLive m
not_idle m e ne = λ h. absurd (ne (sym e ∙ h))

-- From a manager that is idle only without a session, every operation moves the session's state
-- along an edge of the machine, or leaves it, and the manager is again idle only without a session.
pub apply-Edge :
    (m : SessionManager) (c : Call)
    → IsLive m
    → Edge (state_of m) (state_of (apply m c)) × IsLive (apply m c)
unfolding apply
apply-Edge m (start_call scenario ip session_id now) h = elim (IsRecording-cases (state_of m)) [
  | inl e ↦
      unchanged m _
        (ap (λ (t : SessionManager × RuntimeErrorCode). t.0)
          (start_busy m scenario ip session_id now e))
        h
  | inr ne ↦
      let (code, e) = start_begins m scenario ip session_id now ne in
      (subst-Edge refl e (begin (state_of m) ne), not_idle _ e (λ e. absurd (cc)))
]
apply-Edge m (stop_call reason) h = elim (IsRecording-cases (state_of m)) [
  | inl e ↦
      let (code, e') = stop_stops m reason e in
      (subst-Edge e e' ask_stop, not_idle _ e' (λ e. absurd (cc)))
  | inr ne ↦
      unchanged m _ (ap (λ (t : SessionManager × RuntimeErrorCode). t.0) (stop_refuses m reason ne))
        h
]
apply-Edge m (mark_stopped_call reason now) h = elim (mark_moves m reason now) [
  | inl (ne, e) ↦ (subst-Edge refl e (close (state_of m) ne), not_idle _ e (λ e. absurd (cc)))
  | inr (same, e) ↦ unchanged m _ (same (h e)) h
]
apply-Edge m (set_error_call reason) h = elim (error_moves m reason) [
  | inl (ne, e) ↦ (subst-Edge refl e (fail (state_of m) ne), not_idle _ e (λ e. absurd (cc)))
  | inr (same, e) ↦ unchanged m _ (same (h e)) h
]
apply-Edge m (set_source_ip_call ip) h =
    (subst-Edge refl (source_ip_keeps m ip) (stay (state_of m)), source_ip-IsLive m ip h)

-- `Start` is refused as busy, with nothing changed, exactly when a session is being recorded; else it
-- makes a session that is being recorded. `Stop` asks a session that is being recorded to stop, and
-- is refused, with nothing changed, in every other state.
pub start_and_stop :
    (m : SessionManager) (scenario : ScenarioMetadata) (ip session_id now reason : Text)
    → ((state_of m ≡ recording)
        × (start m scenario ip session_id now ≡ (m, session_busy))
        × ((stop m reason).1 ≡ ok)
        × (state_of (stop m reason).0 ≡ stopping))
      ⊎ ((state_of m ≢ recording)
          × ((start m scenario ip session_id now).1 ≡ ok)
          × (state_of (start m scenario ip session_id now).0 ≡ recording)
          × (stop m reason ≡ (m, not_recording)))
start_and_stop m scenario ip session_id now reason = elim (IsRecording-cases (state_of m)) [
  | inl e ↦
      let (code, state) = stop_stops m reason e in
      inl (e, start_busy m scenario ip session_id now e, code, state)
  | inr ne ↦
      let (code, state) = start_begins m scenario ip session_id now ne in
      inr (ne, code, state, stop_refuses m reason ne)
]
