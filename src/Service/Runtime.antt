-- ===== src/Service/Runtime.antt =====
-- `RuntimeService`: the start and the stop of a recording and the draining of the buffer, as one operation
-- after another; the threads, the reports and the metadata files are not modelled.
use local_pc.Common.{
  ℕ, suc, Bool, true, false, Option, none, some, List, [], ◌∷◌, ◌++◌, length, if◌then◌else◌,
}
use local_pc.Buffer.Packets as Packets
use local_pc.Buffer.Packets.{PacketBuffer, push, pop_front}
use local_pc.Session.Manager.{
  Text, SessionManager, recording, stopping, RuntimeErrorCode, ok, not_recording, internal_error,
  ScenarioMetadata, state_of, start, stop, mark_stopped, set_error,
}
use local_pc.Writer.Chunks as Chunks
use local_pc.Writer.Chunks.{ChunkWriter, World, write_contract_frame, open_writer, close_writer}
use local_pc.Service.Diagnostics.{Diagnostics, failed, on_packet_written, set_health}
use local_pc.Service.Track.{Tracker, reset}

pub record ServiceConfig : Type 0 where
  pub auto_start_on_session_started : Bool
  pub time_gap_threshold_ms : ℕ
  pub packet_buffer_capacity : ℕ
  pub packet_buffer_max_bytes : ℕ
  pub max_payload_bytes : ℕ
  -- What `DefaultScenario` makes of the configuration.
  pub default_scenario : ScenarioMetadata
  pub chunks : Chunks.RuntimeConfig

-- What the system answers in the course of an operation: the clock and the name for a new session, the
-- answers to the opening of a writer and to its writes, which are counted.
pub record Moment : Type 0 where
  pub session_id : Text
  pub utc_now : Text
  pub now : ℕ
  pub open_answer : World
  pub write_answer : ℕ → World
  pub close_ok : Bool

pub record Service : Type 0 where
  pub config : ServiceConfig
  pub sessions : SessionManager
  pub has_error_log : Bool
  pub buffer : Option PacketBuffer
  pub writer : Option ChunkWriter
  pub tracker : Tracker
  pub sync_file_mode : Bool
  pub finalize_in_progress : Bool
  -- The writers that were closed: what the earlier sessions have left on the disk.
  pub finished : List ChunkWriter

abbrev pub with_diagnostics : Service → Diagnostics → Service
with_diagnostics s d = record s { tracker = record s.tracker { diagnostics = d } }

abbrev pub chunk_open_failed : Text
chunk_open_failed =
    99 ∷ 104 ∷ 117 ∷ 110 ∷ 107 ∷ 95 ∷ 111 ∷ 112 ∷ 101 ∷ 110 ∷ 95 ∷ 102 ∷ 97 ∷ 105 ∷ 108 ∷ 101 ∷ 100
    ∷ []

abbrev pub disk_write_failed : Text
disk_write_failed =
    100 ∷ 105 ∷ 115 ∷ 107 ∷ 95 ∷ 119 ∷ 114 ∷ 105 ∷ 116 ∷ 101 ∷ 95 ∷ 102 ∷ 97 ∷ 105 ∷ 108 ∷ 101 ∷ 100
    ∷ []

-- `StartRecording` after the session has begun.
unfoldable pub begin_recording : Service → Moment → Service × RuntimeErrorCode
begin_recording s m =
    let (w, opened) = open_writer (Chunks.init s.config.chunks m.now) m.open_answer in
    let s' : Service = record s {
      has_error_log = true;
      buffer = some (Packets.init s.config.packet_buffer_capacity s.config.packet_buffer_max_bytes);
      writer = some w;
    } in
    if opened
    then (record s' { tracker = reset s.tracker }, ok)
    else (record s' { sessions = set_error s.sessions chunk_open_failed }, internal_error)

unfoldable pub start_recording : Service → ScenarioMetadata → Moment → Service × RuntimeErrorCode
start_recording s scenario m =
    let (sessions, code) = start s.sessions scenario [] m.session_id m.utc_now in
    elim code [
      | ok ↦ begin_recording (record s { sessions = sessions }) m
      | other ↦ (record s { sessions = sessions }, other)
    ]

-- One turn of the inner loop of `DrainPacketBuffer`: a packet is written, and `false` leaves the drain.
unfoldable pub drain_packet : Service → ChunkWriter → World → List ℕ → Service × ChunkWriter × Bool
drain_packet s w io packet =
    let (w', written) = write_contract_frame w io packet in
    if written
    then (with_diagnostics s (on_packet_written s.tracker.diagnostics (length packet)), w', true)
    else if s.has_error_log
    then (
      record (with_diagnostics s (set_health s.tracker.diagnostics failed)) {
        sessions = set_error s.sessions disk_write_failed;
      },
      w',
      false,
    )
    else (s, w', true)

-- The inner loop of `DrainPacketBuffer`, by recursion on the queue of `b`; what it leaves.
unfoldable pub drain_queue :
    Service
    → ChunkWriter
    → PacketBuffer
    → List (List ℕ)
    → (ℕ → World)
    → ℕ
    → Service × ChunkWriter × PacketBuffer
drain_queue s w b [] answers n = (s, w, b)
drain_queue s w b (packet ∷ queue) answers n =
    let (b', popped) = pop_front b (packet ∷ queue) in
    let (s', w', go_on) = drain_packet s w (answers n) packet in
    let rest = drain_queue s' w' b' queue answers (suc n) in if go_on then rest else (s', w', b')

-- `DrainPacketBuffer`. With no other thread about, one attempt empties the buffer or leaves it for good,
-- and the further attempts find it so.
unfoldable pub drain_packet_buffer : Service → Moment → Service
drain_packet_buffer s m = elim s.buffer [
  | none ↦ s
  | some b ↦ elim s.writer [
    | none ↦ s
    | some w ↦
        let (s', w', b') = drain_queue s w b b.queue m.write_answer 0 in
        record s' { writer = some w'; buffer = some b' }
  ]
]

unfoldable pub close_current : Service → Moment → Service
close_current s m = elim s.writer [
  | none ↦ s
  | some w ↦ record s { finished = s.finished ++ close_writer w m.now m.close_ok ∷ [] }
]

-- `FinalizeActiveSession`, without its files.
unfoldable pub finalize_active_session : Service → Text → Moment → Service
unfolding drain_packet_buffer close_current
finalize_active_session s reason m =
    let drained = if s.sync_file_mode then s else drain_packet_buffer s m in
    let shut = close_current drained m in
    record shut {
      sessions = mark_stopped shut.sessions reason m.utc_now;
      writer = none;
      buffer = none;
      has_error_log = false;
    }

-- `StopRecording` when there is a session to stop. Waiting for the writer's thread changes nothing.
unfoldable pub end_recording : Service → Text → Moment → Service
unfolding drain_packet_buffer finalize_active_session
end_recording s reason m =
    let asked : Service = record s {
      finalize_in_progress = true;
      sessions = (stop s.sessions reason).0;
    } in
    let drained = if s.sync_file_mode then drain_packet_buffer asked m else asked in
    record (finalize_active_session drained reason m) { finalize_in_progress = false }

unfoldable pub stop_recording : Service → Text → Moment → Service × RuntimeErrorCode
unfolding end_recording
stop_recording s reason m = if s.finalize_in_progress then (s, ok) else elim (state_of s.sessions) [
  | recording ↦ (end_recording s reason m, ok)
  | stopping ↦ (end_recording s reason m, ok)
  | other ↦ (s, not_recording)
]
