-- ===== src/Service/FileMode.antt =====
-- In the file mode the service passes the frames of a recording on to its writer.
use local_pc.Common.{
  if_both, ◌==◌, ==_ne, ℕ, ◌≡◌, ◌≢◌, refl, sym, ◌∙◌, subst, arith, true, false, some, List, [], ◌∷◌,
  All,
}
use local_pc.Frame.Header.{EgoFrameHeader, decode_header, type_code, session_ended}
use local_pc.Frame.Parse.{IsFrame}
use local_pc.Session.Manager.{recording, state_of}
use local_pc.Writer.Chunks.{ChunkWriter, World, write_contract_frame}
use local_pc.Writer.Runs.{run}
use local_pc.Service.Runtime.{Service, Moment}
use local_pc.Service.Frames.{
  start_if_asked, note_frame, keep_frame, write_frame, on_valid_frame, on_contract_frame,
}

-- A recording in the file mode, with its writer.
pub record IsWriting (max : ℕ) (w : ChunkWriter) (s : Service) : Type 0 where
  pub state : state_of s.sessions ≡ recording
  pub mode : s.sync_file_mode ≡ true
  pub writer : s.writer ≡ some w
  pub limit : s.config.max_payload_bytes ≡ max

not_started :
    (s : Service) (header : EgoFrameHeader) (m : Moment)
    → state_of s.sessions ≡ recording
    → start_if_asked s header m ≡ s
unfolding start_if_asked
not_started s header m e = ground arith

noted-IsWriting :
    (max : ℕ) (w : ChunkWriter) (s : Service) (header : EgoFrameHeader)
    → IsWriting max w s
    → IsWriting max w (note_frame s header)
unfolding note_frame
noted-IsWriting max w s header h = record {
  state = h.state;
  mode = h.mode;
  writer = h.writer;
  limit = h.limit;
}

write_frame-IsWriting :
    (max : ℕ) (w : ChunkWriter) (s : Service) (io : World) (f : List ℕ)
    → IsWriting max w s
    → IsWriting max (write_contract_frame w io f).0 (write_frame s w io f)
unfolding write_frame
write_frame-IsWriting max w s io f h =
    let state = record s { writer = some (write_contract_frame w io f).0 } in
    let after : IsWriting max (write_contract_frame w io f).0 state = record {
      state = h.state;
      mode = h.mode;
      writer = refl;
      limit = h.limit;
    } in
    if_both (λ t. IsWriting max (write_contract_frame w io f).0 t) (write_contract_frame w io f).1 _
      state
      (record {
        state = after.state;
        mode = after.mode;
        writer = after.writer;
        limit = after.limit;
      })
      after

kept :
    (max : ℕ) (w : ChunkWriter) (s : Service) (io : World) (f : List ℕ)
    → IsWriting max w s
    → keep_frame s io f ≡ write_frame s w io f
unfolding keep_frame
kept max w s io f h = ground (arith, h.state, h.mode, h.writer)

module _ (crc32 : List ℕ → ℕ) where
  valid_passed :
      (s : Service) (f : List ℕ) (m : Moment)
      → start_if_asked s (decode_header f) m ≡ s
      → ((decode_header f).frame_type == type_code session_ended) ≡ false
      → on_valid_frame crc32 s f m
        ≡ keep_frame (note_frame s (decode_header f)) (m.write_answer 0) f
  unfolding on_valid_frame
  valid_passed s f m e t = ground arith

  validated :
      (s : Service) (f : List ℕ) (m : Moment)
      → IsFrame crc32 s.config.max_payload_bytes f
      → on_contract_frame crc32 s f m ≡ on_valid_frame crc32 s f m
  unfolding on_contract_frame
  validated s f m v = ground arith

  -- One frame of a recording.
  frame_written :
      (max : ℕ) (w : ChunkWriter) (s : Service) (f : List ℕ) (m : Moment)
      → IsFrame crc32 max f
      → (decode_header f).frame_type ≢ type_code session_ended
      → IsWriting max w s
      → IsWriting max
          (write_contract_frame w (m.write_answer 0) f).0
          (on_contract_frame crc32 s f m)
  frame_written max w s f m v t h =
      let noted = noted-IsWriting max w s (decode_header f) h in
      subst (λ x. IsWriting max (write_contract_frame w (m.write_answer 0) f).0 x)
        (sym (
          validated s f m (subst (λ n. IsFrame crc32 n f) (sym h.limit) v)
          ∙ valid_passed s f m (not_started s (decode_header f) m h.state) (==_ne _ _ t)
          ∙ kept max w (note_frame s (decode_header f)) (m.write_answer 0) f noted))
        (write_frame-IsWriting max w (note_frame s (decode_header f)) (m.write_answer 0) f noted)

  -- The frames that are handed to the service, each with what the system answers.
  unfoldable pub on_frames : Service → List (Moment × List ℕ) → Service
  on_frames s [] = s
  on_frames s ((m, f) ∷ calls) = on_frames (on_contract_frame crc32 s f m) calls

  -- The calls of the writer that they make.
  abbrev pub writes : List (Moment × List ℕ) → List (World × List ℕ)
  writes [] = []
  writes ((m, f) ∷ calls) = (m.write_answer 0, f) ∷ writes calls

  -- In the file mode, while a session is recorded and until its end is announced, the service hands
  -- valid frames to its writer one after the other and does nothing else to it: the writer is then
  -- the one that the same calls of `WriteContractFrame` give, and the session is still recorded.
  pub on_frames-run :
      (max : ℕ) (w : ChunkWriter) (s : Service) (calls : List (Moment × List ℕ))
      → All
          (λ c. IsFrame crc32 max c.1 × ((decode_header c.1).frame_type ≢ type_code session_ended))
          calls
      → IsWriting max w s
      → IsWriting max (run w (writes calls)).0 (on_frames s calls)
  unfolding on_frames run
  on_frames-run max w s [] v h = h
  on_frames-run max w s ((m, f) ∷ calls) ((v, t), vs) h =
      on_frames-run max (write_contract_frame w (m.write_answer 0) f).0
        (on_contract_frame crc32 s f m) calls vs (frame_written max w s f m v t h)
