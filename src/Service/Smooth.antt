-- ===== src/Service/Smooth.antt =====
-- A system that lets the writer do its work: every call then writes its frame.
use local_pc.Common.{
  ==_iff, ℕ, suc, ◌≤◌, ◌≡◌, refl, ap, ap₂, ◌∙◌, inl, inr, arith, Bool, true, false, none, List, [],
  ◌∷◌, ◌++◌, length, All,
}
use local_pc.Frame.Header.{frame_magic, decode_header}
use local_pc.Writer.Chunks.{
  ChunkWriter, World, opened, open_chunk, rotate_if_needed, put_frame, write_contract_frame,
  record_frame, stream_write, append_contract_index, count_written, flush_if_due, flush, next_chunk,
}
use local_pc.Writer.Steps.{rotate-cases, turned, recorded, put_taken, stream_writes, with_frame}
use local_pc.Writer.Runs.{run, reported}

-- The system lets openings, writes and flushes through.
abbrev pub IsSmooth : World → Type 0
IsSmooth io = (io.open_ok ≡ true) × (io.write_fails ≡ none) × (io.flush_ok ≡ true)

-- A stream that is open takes bytes.
abbrev pub IsReady : ChunkWriter → Type 0
IsReady w = w.is_open ≡ true → w.good ≡ true

-- What the writer asks of a frame.
abbrev pub IsWritable : List ℕ → Type 0
IsWritable f = (72 ≤ length f) × ((decode_header f).magic ≡ frame_magic)

open_smooth :
    (w : ChunkWriter) (io : World)
    → w.is_open ≡ false
    → io.open_ok ≡ true
    → open_chunk w io ≡ (opened w io, true)
unfolding open_chunk
open_smooth w io c o = ground arith

opened-good : (w : ChunkWriter) (io : World) → (opened w io).good ≡ true
unfolding opened
opened-good w io = refl

turned_closed : (w : ChunkWriter) (io : World) → (turned w io).is_open ≡ false
unfolding next_chunk
turned_closed w io = refl

rotate_smooth :
    (w : ChunkWriter) (io : World)
    → IsReady w
    → io.open_ok ≡ true
    → ((rotate_if_needed w io).1 ≡ true) × ((rotate_if_needed w io).0.good ≡ true)
rotate_smooth w io r o = elim (rotate-cases w io) [
  | inl (open_now, l, e) ↦
      (ap (λ t. t.1) e, ap (λ (t : ChunkWriter × Bool). t.0.good) e ∙ r open_now)
  | inr (inl (c, e)) ↦
      let e' = e ∙ open_smooth w io c o in
      (ap (λ t. t.1) e', ap (λ (t : ChunkWriter × Bool). t.0.good) e' ∙ opened-good w io)
  | inr (inr (c, e)) ↦
      let e' = e ∙ open_smooth (turned w io) io (turned_closed w io) o in
      (
        ap (λ t. t.1) e',
        ap (λ (t : ChunkWriter × Bool). t.0.good) e' ∙ opened-good (turned w io) io,
      )
]

recorded-good :
    (w : ChunkWriter) (io : World) (f : List ℕ)
    → w.good ≡ true
    → io.flush_ok ≡ true
    → (recorded w io f).good ≡ true
unfolding record_frame append_contract_index count_written flush_if_due flush
recorded-good w io f g o = ground arith

put_good :
    (w : ChunkWriter) (io : World) (f : List ℕ)
    → w.good ≡ true
    → io.write_fails ≡ none
    → (decode_header f).magic ≡ frame_magic
    → put_frame w io f ≡ (recorded w io f, true)
put_good w io f g n m =
    put_taken w (with_frame w f) io f ((==_iff _ _).1 m)
      (ap (λ t. stream_write w t f) n ∙ stream_writes w f g) g

put_smooth :
    (w : ChunkWriter) (io : World) (f : List ℕ)
    → w.good ≡ true
    → IsSmooth io
    → IsWritable f
    → ((put_frame w io f).1 ≡ true) × ((put_frame w io f).0.good ≡ true)
put_smooth w io f g (o, fails, flushes) (long, magic) =
    let e = put_good w io f g fails magic in
    (ap (λ t. t.1) e, ap (λ (t : ChunkWriter × Bool). t.0.good) e ∙ recorded-good w io f g flushes)

write_goes :
    (w : ChunkWriter) (io : World) (f : List ℕ)
    → 72 ≤ length f
    → (rotate_if_needed w io).1 ≡ true
    → write_contract_frame w io f ≡ put_frame (rotate_if_needed w io).0 io f
unfolding write_contract_frame
write_goes w io f l r = ground arith

pub write_smooth :
    (w : ChunkWriter) (io : World) (f : List ℕ)
    → IsReady w
    → IsSmooth io
    → IsWritable f
    → ((write_contract_frame w io f).1 ≡ true) × IsReady (write_contract_frame w io f).0
write_smooth w io f r s k =
    let (rotated, good) = rotate_smooth w io r s.0 in
    let e = write_goes w io f k.0 rotated in
    let (written, still) = put_smooth (rotate_if_needed w io).0 io f good s k in
    (ap (λ t. t.1) e ∙ written, λ o. ap (λ (t : ChunkWriter × Bool). t.0.good) e ∙ still)

-- The calls of the writer that a drain of a queue makes.
abbrev pub drain_calls : (ℕ → World) → ℕ → List (List ℕ) → List (World × List ℕ)
drain_calls answers n [] = []
drain_calls answers n (packet ∷ queue) = (answers n, packet) ∷ drain_calls answers (suc n) queue

pub run_smooth :
    (w : ChunkWriter) (answers : ℕ → World) (n : ℕ) (queue : List (List ℕ))
    → IsReady w
    → ((i : ℕ) → IsSmooth (answers i))
    → All IsWritable queue
    → (run w (drain_calls answers n queue)).1 ≡ queue
unfolding run
run_smooth w answers n [] r s k = refl
run_smooth w answers n (packet ∷ queue) r s (k, ks) =
    let (written, ready) = write_smooth w (answers n) packet r (s n) k in
    ap₂ (λ b rest. reported b packet ++ rest) written
      (run_smooth (write_contract_frame w (answers n) packet).0 answers (suc n) queue ready s ks)
