-- ===== src/Session/Tests.antt =====
-- A session from its start to its end, on which the laws of the manager are applied.
use local_pc.Common.{◌≡◌, ◌≢◌, ◌↔◌, ◌⊎◌, refl, false, List, [], ◌∷◌, All}
use local_pc.Session.Manager.{
  SessionManager, init, no_scenario, state_of, idle, closed, recording, stopping, start, stop,
  mark_stopped, ok, session_busy, not_recording, session_dir, join_path, new_session,
}
use local_pc.Session.States.{
  Call, start_call, stop_call, mark_stopped_call, apply, Edge, IsLive, apply-Edge, start_and_stop,
}
use local_pc.Session.Runs.{run, is_start, run_idle_iff}

-- The root "/d".
abbrev fresh : SessionManager
fresh = init (47 ∷ 100 ∷ [])

abbrev begun : SessionManager
unfolding start state_of new_session join_path
begun = (start fresh no_scenario [] (49 ∷ []) (50 ∷ [])).0

-- The directory is "/d/sessions/1".
begun_dir :
    session_dir begun ≡ 47 ∷ 100 ∷ 47 ∷ 115 ∷ 101 ∷ 115 ∷ 115 ∷ 105 ∷ 111 ∷ 110 ∷ 115 ∷ 47 ∷ 49 ∷ []
unfolding start state_of new_session join_path session_dir
begun_dir = refl

apply-Edge_example :
    Edge (state_of fresh) (state_of (apply fresh (start_call no_scenario [] (49 ∷ []) (50 ∷ []))))
    × IsLive (apply fresh (start_call no_scenario [] (49 ∷ []) (50 ∷ [])))
apply-Edge_example = apply-Edge fresh (start_call no_scenario [] (49 ∷ []) (50 ∷ [])) (λ e. refl)

start_and_stop_example :
    ((state_of begun ≡ recording)
      × (start begun no_scenario [] [] [] ≡ (begun, session_busy))
      × ((stop begun []).1 ≡ ok)
      × (state_of (stop begun []).0 ≡ stopping))
    ⊎ ((state_of begun ≢ recording)
        × ((start begun no_scenario [] [] []).1 ≡ ok)
        × (state_of (start begun no_scenario [] [] []).0 ≡ recording)
        × (stop begun [] ≡ (begun, not_recording)))
start_and_stop_example = start_and_stop begun no_scenario [] [] [] []

abbrev calls : List Call
calls = stop_call [] ∷ start_call no_scenario [] [] [] ∷ stop_call [] ∷ mark_stopped_call [] [] ∷ []

calls_end : state_of (run fresh calls) ≡ closed
unfolding run apply start state_of new_session join_path stop mark_stopped
calls_end = refl

run_idle_iff_example : (state_of (run fresh calls) ≡ idle) ↔ All (λ c. is_start c ≡ false) calls
run_idle_iff_example = run_idle_iff (47 ∷ 100 ∷ []) calls
