-- ===== src/Service/FileInput.antt =====
-- `RuntimeService::ProcessFileInput`: a file of frames that is recorded in the file mode.
use local_pc.Common.{
  ℕ, suc, ◌≡◌, ◌≢◌, refl, sym, ap, ap₂, ◌∙◌, subst, Bool, true, Option, none, some, List, [], ◌∷◌,
  ◌++◌, map, All,
}
use mathlib.Core.List.{append_assoc}
use local_pc.Frame.Header.{decode_header, type_code, session_ended}
use local_pc.Frame.Io.{for_each_contract_frame}
use local_pc.Frame.Parse.{IsFrame, IsFrame-IsShaped}
use local_pc.Frame.Round.{concat, deliver}
use local_pc.Frame.Walk.{for_each-concat}
use local_pc.Writer.Chunks.{ChunkWriter, World}
use local_pc.Writer.Runs.{run, run-keeps}
use local_pc.Writer.Contents.{Holds, Holds-Logged, Whole, join, map-snoc, join-snoc}
use local_pc.Writer.Places.{files}
use local_pc.Service.Runtime.{Service, Moment}
use local_pc.Service.Frames.{on_contract_frame}
use local_pc.Service.FileMode.{IsWriting, on_frames, writes, on_frames-run}
use local_pc.Service.Smooth.{IsSmooth, IsReady, IsWritable, drain_calls, run_smooth}

module _ (crc32 : List ℕ → ℕ) (moments : ℕ → Moment) where
  -- The handler, with the number of the frame, which picks what the system answers.
  unfoldable pub file_handler : Service × ℕ → List ℕ → (Service × ℕ) × Bool
  file_handler s f = ((on_contract_frame crc32 s.0 f (moments s.1), suc s.1), true)

  -- `none` as the file: it cannot be opened. As in Frame, `none` as the result is a walk without fuel.
  unfoldable pub process_file_input : Service → Option (List ℕ) → Option Service
  unfolding file_handler
  process_file_input s none = some s
  process_file_input s (some bytes) =
      elim (for_each_contract_frame crc32 bytes s.config.max_payload_bytes file_handler (s, 0)) [
        | none ↦ none
        | some w ↦ some w.state.0
      ]

  -- The frames with what the system answers to each.
  abbrev numbered : ℕ → List (List ℕ) → List (Moment × List ℕ)
  numbered n [] = []
  numbered n (f ∷ fs) = (moments n, f) ∷ numbered (suc n) fs

  delivered :
      (s : Service) (n : ℕ) (fs : List (List ℕ))
      → (deliver file_handler fs (s, n)).0.0 ≡ on_frames crc32 s (numbered n fs)
  unfolding file_handler on_frames
  delivered s n [] = refl
  delivered s n (f ∷ fs) = delivered (on_contract_frame crc32 s f (moments n)) (suc n) fs

  writes-numbered :
      (n : ℕ) (fs : List (List ℕ))
      → writes crc32 (numbered n fs) ≡ drain_calls (λ i. (moments i).write_answer 0) n fs
  writes-numbered n [] = refl
  writes-numbered n (f ∷ fs) =
      ap (λ t. ((moments n).write_answer 0, f) ∷ t) (writes-numbered (suc n) fs)

  processed :
      (s : Service) (fs : List (List ℕ))
      → All (IsFrame crc32 s.config.max_payload_bytes) fs
      → process_file_input s (some (concat fs)) ≡ some (on_frames crc32 s (numbered 0 fs))
  unfolding process_file_input
  processed s fs h =
      ap (λ t. elim t [ none ↦ none | some w ↦ some w.state.0 ])
        (for_each-concat crc32 s.config.max_payload_bytes file_handler fs (s, 0) h)
      ∙ ap some (delivered s 0 fs)

-- The files of a writer that holds frames, one after the other.
concat-append : (xs ys : List (List ℕ)) → concat (xs ++ ys) ≡ concat xs ++ concat ys
concat-append [] ys = refl
concat-append (x ∷ xs) ys =
    ap (λ t. x ++ t) (concat-append xs ys) ∙ sym (append_assoc x (concat xs) (concat ys))

concat-map : (gs : List (List (List ℕ))) → concat (map concat gs) ≡ concat (join gs)
concat-map [] = refl
concat-map (g ∷ gs) = ap (λ t. concat g ++ t) (concat-map gs) ∙ sym (concat-append g (join gs))

files-Holds :
    (written : List (List ℕ)) (w : ChunkWriter)
    → Holds written w
    → concat (files w) ≡ concat written
files-Holds written w h =
    ap concat (ap₂ (λ a b. a ++ b ∷ []) h.earlier h.file ∙ sym (map-snoc h.groups h.current))
    ∙ concat-map (h.groups ++ h.current ∷ [])
    ∙ ap concat (join-snoc h.groups h.current ∙ h.all)

smooth-Whole :
    (answers : ℕ → World) (n : ℕ) (fs : List (List ℕ))
    → ((i : ℕ) → IsSmooth (answers i))
    → All (λ c. Whole c.0) (drain_calls answers n fs)
smooth-Whole answers n [] h = tt
smooth-Whole answers n (f ∷ fs) h = ((h n).1, smooth-Whole answers (suc n) fs h)

module _ (crc32 : List ℕ → ℕ) (max : ℕ) where
  -- A frame of a recording that goes on.
  abbrev pub IsRecorded : List ℕ → Type 0
  IsRecorded f = IsFrame crc32 max f × ((decode_header f).frame_type ≢ type_code session_ended)

  numbered-IsRecorded :
      (moments : ℕ → Moment) (n : ℕ) (fs : List (List ℕ))
      → All IsRecorded fs
      → All (λ c. IsRecorded c.1) (numbered crc32 moments n fs)
  numbered-IsRecorded moments n [] h = tt
  numbered-IsRecorded moments n (f ∷ fs) (hf, h) = (hf, numbered-IsRecorded moments (suc n) fs h)

  IsRecorded-IsFrame : (fs : List (List ℕ)) → All IsRecorded fs → All (IsFrame crc32 max) fs
  IsRecorded-IsFrame [] h = tt
  IsRecorded-IsFrame (f ∷ fs) (hf, h) = (hf.0, IsRecorded-IsFrame fs h)

  IsRecorded-IsWritable : (fs : List (List ℕ)) → All IsRecorded fs → All IsWritable fs
  IsRecorded-IsWritable [] h = tt
  IsRecorded-IsWritable (f ∷ fs) (hf, h) =
      let shaped = IsFrame-IsShaped crc32 max f hf.0 in
      ((shaped.long, shaped.magic), IsRecorded-IsWritable fs h)

  written_files :
      (w : ChunkWriter) (answers : ℕ → World) (fs : List (List ℕ))
      → Holds [] w
      → IsReady w
      → ((i : ℕ) → IsSmooth (answers i))
      → All IsRecorded fs
      → concat (files (run w (drain_calls answers 0 fs)).0) ≡ concat fs
  written_files w answers fs h r smooth k =
      files-Holds (run w (drain_calls answers 0 fs)).1 (run w (drain_calls answers 0 fs)).0 (
        run-keeps Whole Holds Holds-Logged [] w (drain_calls answers 0 fs)
          (smooth-Whole answers 0 fs smooth) h)
      ∙ ap concat (run_smooth w answers 0 fs r smooth (IsRecorded-IsWritable fs k))

  -- A service that records in the file mode, with a writer that has written nothing and whose stream is
  -- in order, and a system that lets openings, writes and flushes through: from a file that consists of
  -- valid frames, none of which ends the session, `ProcessFileInput` makes chunk files that together
  -- are the file.
  pub process_file_input-concat :
      (moments : ℕ → Moment) (w : ChunkWriter) (s : Service) (fs : List (List ℕ))
      → IsWriting max w s
      → Holds [] w
      → IsReady w
      → ((i : ℕ) → IsSmooth ((moments i).write_answer 0))
      → All IsRecorded fs
      → (s' : Service) × (w' : ChunkWriter) × (process_file_input crc32 moments s (some (concat fs))
          ≡ some s')
        × (s'.writer ≡ some w')
        × (concat (files w') ≡ concat fs)
  process_file_input-concat moments w s fs h held r smooth k =
      let after =
        on_frames-run crc32 max w s (numbered crc32 moments 0 fs)
          (numbered-IsRecorded moments 0 fs k) h in
      (
        on_frames crc32 s (numbered crc32 moments 0 fs),
        (run w (writes crc32 (numbered crc32 moments 0 fs))).0,
        processed crc32 moments s fs
            (subst (λ n. All (IsFrame crc32 n) fs) (sym h.limit) (IsRecorded-IsFrame fs k)),
        after.writer,
        ap (λ t. concat (files (run w t).0)) (writes-numbered crc32 moments 0 fs)
            ∙ written_files w (λ i. (moments i).write_answer 0) fs held r smooth k,
      )
