-- ===== src/Service/Drained.antt =====
-- The stop of a recording writes what is still in the buffer.
use local_pc.Common.{some, ℕ, suc, ◌≡◌, refl, ap, ◌∙◌, arith, true, false, List, [], ◌∷◌, ◌++◌, All}
use local_pc.Buffer.Packets.{PacketBuffer, pop_front}
use local_pc.Writer.Chunks.{close_writer, ChunkWriter, World, write_contract_frame}
use local_pc.Writer.Runs.{run}
use local_pc.Session.Manager.{Text}
use local_pc.Service.Stopping.{asked}
use local_pc.Service.Runtime.{
  Moment, drain_packet_buffer, close_current, end_recording, finalize_active_session, Service,
  drain_packet, drain_queue,
}
use local_pc.Service.Smooth.{IsSmooth, IsReady, IsWritable, write_smooth, drain_calls, run_smooth}

drain_packet_smooth :
    (s : Service) (w : ChunkWriter) (io : World) (packet : List ℕ)
    → (write_contract_frame w io packet).1 ≡ true
    → ((drain_packet s w io packet).1 ≡ (write_contract_frame w io packet).0)
      × ((drain_packet s w io packet).2 ≡ true)
unfolding drain_packet
drain_packet_smooth s w io packet e = ground arith

drain_queue_step :
    (s : Service) (w : ChunkWriter) (b : PacketBuffer) (packet : List ℕ) (queue : List (List ℕ))
    (answers : ℕ → World) (n : ℕ)
    → (drain_packet s w (answers n) packet).2 ≡ true
    → drain_queue s w b (packet ∷ queue) answers n
      ≡ drain_queue
          (drain_packet s w (answers n) packet).0
          (drain_packet s w (answers n) packet).1
          (pop_front b (packet ∷ queue)).0
          queue
          answers
          (suc n)
unfolding drain_queue
drain_queue_step s w b packet queue answers n e = ground arith

drain_packet-finished :
    (s : Service) (w : ChunkWriter) (io : World) (packet : List ℕ)
    → (drain_packet s w io packet).0.finished ≡ s.finished
unfolding drain_packet
drain_packet-finished s w io packet = ground arith

pop_front-queue :
    (b : PacketBuffer) (packet : List ℕ) (queue : List (List ℕ))
    → (pop_front b (packet ∷ queue)).0.queue ≡ queue
unfolding pop_front
pop_front-queue b packet queue = refl

-- The drain of a queue that goes through.
record IsDrained (s : Service) (w : ChunkWriter) (calls : List (World × List ℕ))
    (r : Service × ChunkWriter × PacketBuffer) : Type 0 where
  writer : r.1 ≡ (run w calls).0
  empty : r.2.queue ≡ []
  finished : r.0.finished ≡ s.finished

drain_queue-IsDrained :
    (s : Service) (w : ChunkWriter) (b : PacketBuffer) (queue : List (List ℕ)) (answers : ℕ → World)
    (n : ℕ)
    → b.queue ≡ queue
    → IsReady w
    → ((i : ℕ) → IsSmooth (answers i))
    → All IsWritable queue
    → IsDrained s w (drain_calls answers n queue) (drain_queue s w b queue answers n)
unfolding drain_queue run
drain_queue-IsDrained s w b [] answers n e r h k = record {
  writer = refl;
  empty = e;
  finished = refl;
}
drain_queue-IsDrained s w b (packet ∷ queue) answers n e r h (k, ks) =
    let (written, ready) = write_smooth w (answers n) packet r (h n) k in
    let (writer, go_on) = drain_packet_smooth s w (answers n) packet written in
    let rest =
      drain_queue-IsDrained (drain_packet s w (answers n) packet).0
        (write_contract_frame w (answers n) packet).0 (pop_front b (packet ∷ queue)).0 queue answers
        (suc n) (pop_front-queue b packet queue) ready h ks in
    let same =
      drain_queue_step s w b packet queue answers n go_on
      ∙ ap
          (λ t.
            drain_queue (drain_packet s w (answers n) packet).0 t (pop_front b (packet ∷ queue)).0
              queue answers (suc n))
          writer in
    record {
      writer = ap (λ (t : Service × ChunkWriter × PacketBuffer). t.1) same ∙ rest.writer;
      empty = ap (λ (t : Service × ChunkWriter × PacketBuffer). t.2.queue) same ∙ rest.empty;
      finished =
          ap (λ (t : Service × ChunkWriter × PacketBuffer). t.0.finished) same
          ∙ rest.finished
          ∙ drain_packet-finished s w (answers n) packet;
    }

drained_writer :
    (s : Service) (m : Moment) (b : PacketBuffer) (w : ChunkWriter)
    → s.buffer ≡ some b
    → s.writer ≡ some w
    → ((drain_packet_buffer s m).writer ≡ some (drain_queue s w b b.queue m.write_answer 0).1)
      × ((drain_packet_buffer s m).finished
          ≡ (drain_queue s w b b.queue m.write_answer 0).0.finished)
unfolding drain_packet_buffer
drained_writer s m b w e f = ground arith

closed_writer :
    (s : Service) (m : Moment) (w : ChunkWriter)
    → s.writer ≡ some w
    → (close_current s m).finished ≡ s.finished ++ close_writer w m.now m.close_ok ∷ []
unfolding close_current
closed_writer s m w e = ground arith

ended_finished :
    (s : Service) (reason : Text) (m : Moment)
    → s.sync_file_mode ≡ false
    → (end_recording s reason m).finished
      ≡ (close_current (drain_packet_buffer (asked s reason) m) m).finished
unfolding end_recording finalize_active_session
ended_finished s reason m e = ground arith

-- When the frames are written by way of the buffer, the writer's stream is in order, the packets in the
-- buffer are ones that the writer takes, and the system lets openings, writes and flushes through:
-- the end of a recording writes every packet that is still in the buffer, in order, and closes the
-- writer, which is what the session leaves on the disk.
pub end_recording-run :
    (s : Service) (reason : Text) (m : Moment) (b : PacketBuffer) (w : ChunkWriter)
    → s.sync_file_mode ≡ false
    → s.buffer ≡ some b
    → s.writer ≡ some w
    → IsReady w
    → ((i : ℕ) → IsSmooth (m.write_answer i))
    → All IsWritable b.queue
    → ((run w (drain_calls m.write_answer 0 b.queue)).1 ≡ b.queue)
      × ((end_recording s reason m).finished
          ≡ s.finished
            ++ close_writer (run w (drain_calls m.write_answer 0 b.queue)).0 m.now m.close_ok ∷ [])
end_recording-run s reason m b w mode e f r h k =
    let (writer, finished) = drained_writer (asked s reason) m b w e f in
    let d = drain_queue-IsDrained (asked s reason) w b b.queue m.write_answer 0 refl r h k in
    (
      run_smooth w m.write_answer 0 b.queue r h k,
      ended_finished s reason m mode
          ∙ closed_writer (drain_packet_buffer (asked s reason) m) m _ (writer ∙ ap some d.writer)
          ∙ ap
              (λ t.
                t
                ++ close_writer (run w (drain_calls m.write_answer 0 b.queue)).0 m.now m.close_ok
                  ∷ [])
              (finished ∙ d.finished),
    )
