-- ===== src/Integrity/Listed.antt =====
-- A writer on which nothing fails has a line in its index for each frame.
use local_pc.Common.{
  ℕ, ◌≡◌, ap, ◌∙◌, arith, true, none, List, [], ◌∷◌, ◌++◌, length, length-append, ◌≢◌,
}
use local_pc.Frame.Header.{decode_header}
use local_pc.Writer.Chunks.{
  index_line, ChunkWriter, World, IndexLine, opened, not_opened, flush, flush_if_due, next_chunk,
  append_contract_index, count_written, record_frame,
}
use local_pc.Writer.Steps.{recorded}
use local_pc.Writer.Runs.{Logged}

-- The system lets every write and every opening of the index through.
abbrev pub NoFailure : World → Type 0
NoFailure io = (io.write_fails ≡ none) × (io.index_open_ok ≡ true) × (io.index_ok ≡ true)

-- One line for each frame, in an index that is open as soon as there is a chunk.
pub record Listed (written : List (List ℕ)) (w : ChunkWriter) : Type 0 where
  pub good : w.index_good ≡ true
  pub opens : w.is_open ≡ true → w.index_open ≡ true
  pub there : written ≢ [] → w.index_open ≡ true
  pub lines : length w.index ≡ length written

recorded-index_open :
    (w : ChunkWriter) (io : World) (f : List ℕ) → (recorded w io f).index_open ≡ w.index_open
unfolding record_frame append_contract_index count_written flush_if_due flush
recorded-index_open w io f = ground arith

recorded_line :
    (w : ChunkWriter) (io : World) (f : List ℕ)
    → w.index_good ≡ true
    → io.index_ok ≡ true
    → ((recorded w io f).index_good ≡ true)
      × ((recorded w io f).index
          ≡ w.index ++ index_line (decode_header f) w.current_chunk_offset w.current_chunk_id ∷ [])
unfolding record_frame append_contract_index count_written flush_if_due flush
recorded_line w io f g i = ground arith

opened-good :
    (w : ChunkWriter) (io : World)
    → w.index_good ≡ true
    → io.index_open_ok ≡ true
    → (opened w io).index_good ≡ true
unfolding opened
opened-good w io g i = ground arith

opened-index_open :
    (w : ChunkWriter) (io : World) → io.index_open_ok ≡ true → (opened w io).index_open ≡ true
unfolding opened
opened-index_open w io i = ground arith

pub Listed-Logged : Logged NoFailure Listed
unfolding flush next_chunk opened not_opened
Listed-Logged = record {
  kept = λ written. record {
    on_flush = λ w now flush_ok h. record {
      good = h.good;
      opens = h.opens;
      there = h.there;
      lines = h.lines;
    };
    on_next =
        λ w h. record { good = h.good; opens = λ c. absurd (cc); there = h.there; lines = h.lines };
    on_open = λ w io fine e h. record {
      good = opened-good w io h.good fine.1;
      opens = λ c. opened-index_open w io fine.1;
      there = λ c. opened-index_open w io fine.1;
      lines = h.lines;
    };
    on_refusal = λ w h. record { good = h.good; opens = h.opens; there = h.there; lines = h.lines };
  };
  whole = λ io fine. fine.0;
  on_frame = λ written w io f fine o h.
      let (good, index) = recorded_line w io f h.good fine.2 in
      record {
        good = good;
        opens = λ c. recorded-index_open w io f ∙ h.opens o;
        there = λ c. recorded-index_open w io f ∙ h.opens o;
        lines = omega (
          arith,
          ap (λ (t : List IndexLine). length t) index,
          length-append w.index
              (index_line (decode_header f) w.current_chunk_offset w.current_chunk_id ∷ []),
          h.lines,
          length-append written (f ∷ []),
        );
      };
}
