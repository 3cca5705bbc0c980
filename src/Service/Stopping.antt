-- ===== src/Service/Stopping.antt =====
-- What the stop of a recording leaves behind.
use local_pc.Common.{
  if◌then◌else◌, if_both, ℕ, suc, ◌≡◌, ◌≢◌, refl, sym, ap, subst, ◌⊎◌, inl, inr, arith, true, false,
  Option, none, some, List, [], ◌∷◌,
}
use local_pc.Buffer.Packets.{PacketBuffer, pop_front}
use local_pc.Session.Manager.{
  Text, SessionManager, SessionState, idle, recording, stopping, closed, error, RuntimeErrorCode,
  ok, not_recording, state_of, stop, mark_stopped, set_error,
}
use local_pc.Session.States.{stop_refuses, mark_moves, error_moves, stop_stops}
use local_pc.Writer.Chunks.{ChunkWriter, World}
use local_pc.Service.Runtime.{
  Service, Moment, drain_packet, drain_queue, drain_packet_buffer, close_current,
  finalize_active_session, end_recording, stop_recording, disk_write_failed,
}

-- There is a session.
abbrev pub HasSession : Service → Type 0
HasSession s = state_of s.sessions ≢ idle

error-HasSession :
    (m : SessionManager) (reason : Text) → state_of m ≢ idle → state_of (set_error m reason) ≢ idle
error-HasSession m reason h = elim (error_moves m reason) [
  | inl (ne, e) ↦ λ i. absurd (cc)
  | inr (same, e) ↦ absurd (h e)
]

drain_packet-sessions :
    (s : Service) (w : ChunkWriter) (io : World) (packet : List ℕ)
    → ((drain_packet s w io packet).0.sessions ≡ s.sessions)
      ⊎ ((drain_packet s w io packet).0.sessions ≡ set_error s.sessions disk_write_failed)
unfolding drain_packet
drain_packet-sessions s w io packet = ground arith

drain_packet-HasSession :
    (s : Service) (w : ChunkWriter) (io : World) (packet : List ℕ)
    → HasSession s
    → HasSession (drain_packet s w io packet).0
drain_packet-HasSession s w io packet h = elim (drain_packet-sessions s w io packet) [
  | inl e ↦ subst (λ t. state_of t ≢ idle) (sym e) h
  | inr e ↦ subst (λ t. state_of t ≢ idle) (sym e) (error-HasSession s.sessions disk_write_failed h)
]

drain_queue-HasSession :
    (s : Service) (w : ChunkWriter) (b : PacketBuffer) (queue : List (List ℕ)) (answers : ℕ → World)
    (n : ℕ)
    → HasSession s
    → HasSession (drain_queue s w b queue answers n).0
unfolding drain_queue
drain_queue-HasSession s w b [] answers n h = h
drain_queue-HasSession s w b (packet ∷ queue) answers n h =
    let one = drain_packet-HasSession s w (answers n) packet h in
    let (s', w', go_on) = drain_packet s w (answers n) packet in
    if_both (λ (t : Service × ChunkWriter × PacketBuffer). HasSession t.0) go_on _ _
      (drain_queue-HasSession s' w' (pop_front b (packet ∷ queue)).0 queue answers (suc n) one) one

drain_packet_buffer-HasSession :
    (s : Service) (m : Moment) → HasSession s → HasSession (drain_packet_buffer s m)
unfolding drain_packet_buffer
drain_packet_buffer-HasSession s m h =
    elim s.buffer
      as (λ (b : Option PacketBuffer). HasSession (elim b [
        | none ↦ s
        | some b ↦ elim s.writer [
          | none ↦ s
          | some w ↦
              let (s', w', b') = drain_queue s w b b.queue m.write_answer 0 in
              record s' { writer = some w'; buffer = some b' }
        ]
      ])) [
        | none ↦ h
        | some b ↦
            elim s.writer
              as (λ (v : Option ChunkWriter). HasSession (elim v [
                | none ↦ s
                | some w ↦
                    let (s', w', b') = drain_queue s w b b.queue m.write_answer 0 in
                    record s' { writer = some w'; buffer = some b' }
              ])) [ none ↦ h | some w ↦ drain_queue-HasSession s w b b.queue m.write_answer 0 h ]
      ]

close_current-sessions : (s : Service) (m : Moment) → (close_current s m).sessions ≡ s.sessions
unfolding close_current
close_current-sessions s m = ground arith

mark-closed :
    (m : SessionManager) (reason now : Text)
    → state_of m ≢ idle
    → state_of (mark_stopped m reason now) ≡ closed
mark-closed m reason now h = elim (mark_moves m reason now) [
  | inl (ne, e) ↦ e
  | inr (same, e) ↦ absurd (h e)
]

-- What is left when a session has been finalized.
pub record IsShut (s : Service) : Type 0 where
  pub state : state_of s.sessions ≡ closed
  pub no_writer : s.writer ≡ none
  pub no_buffer : s.buffer ≡ none
  pub idle_again : s.finalize_in_progress ≡ false

shut :
    (s : Service) (reason : Text) (m : Moment)
    → HasSession s
    → IsShut (record (finalize_active_session s reason m) { finalize_in_progress = false })
unfolding finalize_active_session
shut s reason m h = record {
  state = mark-closed _ reason m.utc_now (
      subst (λ t. state_of t ≢ idle) (sym (close_current-sessions _ m))
        (if_both HasSession s.sync_file_mode s (drain_packet_buffer s m) h
          (drain_packet_buffer-HasSession s m h)));
  no_writer = refl;
  no_buffer = refl;
  idle_again = refl;
}

Stoppable-cases :
    (x : SessionState) → ((x ≡ recording) ⊎ (x ≡ stopping)) ⊎ ((x ≢ recording) × (x ≢ stopping))
Stoppable-cases idle = inr (λ e. absurd (cc), λ e. absurd (cc))
Stoppable-cases recording = inl (inl refl)
Stoppable-cases stopping = inl (inr refl)
Stoppable-cases closed = inr (λ e. absurd (cc), λ e. absurd (cc))
Stoppable-cases error = inr (λ e. absurd (cc), λ e. absurd (cc))

-- The service when the session has been asked to stop.
abbrev pub asked : Service → Text → Service
asked s reason = record s { finalize_in_progress = true; sessions = (stop s.sessions reason).0 }

end_recording-IsShut :
    (s : Service) (reason : Text) (m : Moment)
    → state_of (stop s.sessions reason).0 ≢ idle
    → IsShut (end_recording s reason m)
unfolding end_recording
end_recording-IsShut s reason m h =
    let drained =
      if s.sync_file_mode then drain_packet_buffer (asked s reason) m else asked s reason in
    shut drained reason m (
      if_both HasSession s.sync_file_mode (drain_packet_buffer (asked s reason) m) (asked s reason)
        (drain_packet_buffer-HasSession (asked s reason) m h) h)

stop_of_recording :
    (s : Service) (reason : Text) (m : Moment)
    → s.finalize_in_progress ≡ false
    → (state_of s.sessions ≡ recording) ⊎ (state_of s.sessions ≡ stopping)
    → stop_recording s reason m ≡ (end_recording s reason m, ok)
unfolding stop_recording
stop_of_recording s reason m f h = ground arith

stop_of_other :
    (s : Service) (reason : Text) (m : Moment)
    → s.finalize_in_progress ≡ false
    → state_of s.sessions ≢ recording
    → state_of s.sessions ≢ stopping
    → stop_recording s reason m ≡ (s, not_recording)
unfolding stop_recording
stop_of_other s reason m f h k = ground arith

stop_not_idle :
    (m : SessionManager) (reason : Text)
    → (state_of m ≡ recording) ⊎ (state_of m ≡ stopping)
    → state_of (stop m reason).0 ≢ idle
stop_not_idle m reason (inl e) = let (code, e') = stop_stops m reason e in λ i. absurd (cc)
stop_not_idle m reason (inr e) =
    let same = stop_refuses m reason (λ r. absurd (cc)) in
    λ i. absurd (cc (e, i, ap (λ (t : SessionManager × RuntimeErrorCode). state_of t.0) same))

-- When no stop is under way: `StopRecording` of a session that is being recorded or stopped succeeds,
-- and leaves a closed session and a service without writer and buffer, ready for the next stop; of
-- any other it is refused and changes nothing.
pub stop_recording_lem :
    (s : Service) (reason : Text) (m : Moment)
    → s.finalize_in_progress ≡ false
    → (((state_of s.sessions ≡ recording) ⊎ (state_of s.sessions ≡ stopping))
        × ((stop_recording s reason m).1 ≡ ok)
        × IsShut (stop_recording s reason m).0)
      ⊎ ((state_of s.sessions ≢ recording)
          × (state_of s.sessions ≢ stopping)
          × (stop_recording s reason m ≡ (s, not_recording)))
stop_recording_lem s reason m f = elim (Stoppable-cases (state_of s.sessions)) [
  | inl e ↦
      let done = stop_of_recording s reason m f e in
      inl (
        e,
        ap (λ (t : Service × RuntimeErrorCode). t.1) done,
        subst (λ (t : Service × RuntimeErrorCode). IsShut t.0) (sym done)
            (end_recording-IsShut s reason m (stop_not_idle s.sessions reason e)),
      )
  | inr (r, t) ↦ inr (r, t, stop_of_other s reason m f r t)
]
