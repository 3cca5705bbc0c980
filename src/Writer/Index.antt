-- ===== src/Writer/Index.antt =====
-- Every line of the index leads to the header that it was made from.
use local_pc.Common.{
  ap₂, take, All-append, inr, ◌⊎◌, inl, drop-append, ℕ, ◌%◌, ◌^◌, ◌≤◌, ◌≡◌, refl, sym, ap, ◌∙◌,
  subst, arith, true, false, List, [], ◌∷◌, ◌++◌, length, length-append, drop, All, get_or,
}
use local_pc.Frame.Header.{decode_header, frame_magic}
use local_pc.Writer.Chunks.{
  init, flush_if_due, count_written, write_contract_frame, put_frame, append_contract_index,
  RuntimeConfig, World, record_frame, ChunkWriter, index_line, opened, not_opened, flush,
  next_chunk,
}
use local_pc.Writer.Steps.{
  Anyhow, rotate_ready, rotate-keeps, write-cases, put-cases, record_frame-fields, recorded, Kept,
}
use local_pc.Writer.Runs.{run}
use local_pc.Writer.Places.{
  files, IsPointed, append-Extends, new_file-Extends, get_or_last, lines-Extends,
}

pub record Indexed (w : ChunkWriter) : Type 0 where
  pub lines : All (IsPointed (files w)) w.index
  pub id : w.current_chunk_id ≡ length w.earlier % 2 ^ 32
  pub offset : w.good ≡ true → w.is_open ≡ true → w.current_chunk_offset ≡ length w.file % 2 ^ 64
  pub closed : w.is_open ≡ false → w.file ≡ []

Indexed-Kept : Kept Anyhow Indexed
unfolding flush next_chunk opened not_opened
Indexed-Kept = record {
  on_flush = λ w now flush_ok h. record {
    lines = h.lines;
    id = h.id;
    offset = λ g o. ground (arith, h.offset);
    closed = h.closed;
  };
  on_next = λ w h. record {
    lines = lines-Extends (files w) _ w.index (new_file-Extends (files w)) h.lines;
    id = omega (arith, h.id, length-append w.earlier (w.file ∷ []));
    offset = λ g o. absurd (cc);
    closed = λ e. refl;
  };
  on_open = λ w io fine e h. record {
    lines = subst (λ t. All (IsPointed (w.earlier ++ t ∷ [])) w.index) (h.closed e) h.lines;
    id = h.id;
    offset = λ g o. refl;
    closed = λ e'. refl;
  };
  on_refusal =
      λ w h. record { lines = h.lines; id = h.id; offset = λ g. absurd (cc); closed = h.closed };
}

record_frame-index :
    (w : ChunkWriter) (io : World) (f : List ℕ)
    → ((recorded w io f).index ≡ w.index)
      ⊎ ((recorded w io f).index
          ≡ w.index ++ index_line (decode_header f) w.current_chunk_offset w.current_chunk_id ∷ [])
unfolding record_frame append_contract_index count_written flush_if_due flush
record_frame-index w io f = ground arith

-- The new frame in the new files.
frame_place :
    (es : List (List ℕ)) (file f : List ℕ)
    → drop (length file) (get_or (es ++ (file ++ f) ∷ []) (length es) []) ≡ f
frame_place es file f =
    ap (drop (length file)) (get_or_last es (file ++ f)) ∙ drop-append (length file) file f refl

new_line-IsPointed :
    (w : ChunkWriter) (f : List ℕ)
    → 72 ≤ length f
    → (decode_header f).magic ≡ frame_magic
    → w.current_chunk_offset ≡ length w.file % 2 ^ 64
    → Indexed w
    → IsPointed
        (w.earlier ++ (w.file ++ f) ∷ [])
        (index_line (decode_header f) w.current_chunk_offset w.current_chunk_id)
new_line-IsPointed w f long magic off h =
    let there = frame_place w.earlier w.file f in
    record {
      chunk = length w.earlier;
      place = length w.file;
      chunk_id = h.id;
      offset = off;
      whole = omega (arith, long, ap (λ (t : List ℕ). length t) there);
      magic = ap (λ t. (decode_header t).magic) there ∙ magic;
      header =
          sym (
            ap (λ t. index_line (decode_header t) w.current_chunk_offset w.current_chunk_id) there);
    }

recorded-Indexed :
    (w : ChunkWriter) (io : World) (f : List ℕ)
    → 72 ≤ length f
    → (decode_header f).magic ≡ frame_magic
    → w.is_open ≡ true
    → w.good ≡ true
    → Indexed w
    → Indexed (recorded w io f)
recorded-Indexed w io f long magic o g h =
    let (file, earlier, is_open, same, bytes, packets, id, offset, chunk) =
      record_frame-fields w io f in
    let now_there : files (recorded w io f) ≡ w.earlier ++ (w.file ++ f) ∷ [] =
      ap₂ (λ a b. a ++ b ∷ []) earlier file in
    let old =
      lines-Extends (files w) (w.earlier ++ (w.file ++ f) ∷ []) w.index
        (append-Extends w.earlier w.file f) h.lines in
    record {
      lines =
          subst (λ t. All (IsPointed t) (recorded w io f).index) (sym now_there)
            (elim (record_frame-index w io f) [
              | inl e ↦ subst (λ t. All (IsPointed (w.earlier ++ (w.file ++ f) ∷ [])) t) (sym e) old
              | inr e ↦
                  subst (λ t. All (IsPointed (w.earlier ++ (w.file ++ f) ∷ [])) t) (sym e)
                    (All-append _ w.index _ old
                      (new_line-IsPointed w f long magic (h.offset g o) h, tt))
            ]);
      id = id ∙ h.id ∙ ap (λ (t : List (List ℕ)). length t % 2 ^ 32) (sym earlier);
      offset = λ g' o'.
          omega (
            arith,
            offset,
            h.offset g o,
            ap (λ (t : List ℕ). length t) file,
            length-append w.file f,
          );
      closed = λ c. absurd (cc);
    }

put_frame-Indexed :
    (w : ChunkWriter) (io : World) (f : List ℕ)
    → 72 ≤ length f
    → w.is_open ≡ true
    → Indexed w
    → Indexed (put_frame w io f).0
put_frame-Indexed w io f long o h = elim (put-cases w io f) [
  | inl e ↦ subst (λ t. Indexed t.0) (sym e) h
  | inr (inl (n, e, g, p)) ↦
      subst (λ t. Indexed t.0) (sym p)
        (record {
          lines =
              lines-Extends (files w) _ w.index (append-Extends w.earlier w.file (take n f))
                h.lines;
          id = h.id;
          offset = λ g'. absurd (cc);
          closed = λ c. absurd (cc);
        })
  | inr (inr (m, g, e, p)) ↦ subst (λ t. Indexed t.0) (sym p) (recorded-Indexed w io f long m o g h)
]

write_contract_frame-Indexed :
    (w : ChunkWriter) (io : World) (f : List ℕ)
    → Indexed w
    → Indexed (write_contract_frame w io f).0
write_contract_frame-Indexed w io f h = elim (write-cases w io f) [
  | inl e ↦ subst (λ t. Indexed t.0) (sym e) h
  | inr (inl e) ↦
      subst (λ t. Indexed t.0) (sym e) (rotate-keeps Anyhow Indexed Indexed-Kept w io tt h)
  | inr (inr (long, r, e)) ↦
      subst (λ t. Indexed t.0) (sym e)
        (put_frame-Indexed _ io f long (rotate_ready w io r).0
          (rotate-keeps Anyhow Indexed Indexed-Kept w io tt h))
]

run_from-Indexed :
    (w : ChunkWriter) (calls : List (World × List ℕ)) → Indexed w → Indexed (run w calls).0
unfolding run
run_from-Indexed w [] h = h
run_from-Indexed w ((io, f) ∷ calls) h =
    run_from-Indexed (write_contract_frame w io f).0 calls (write_contract_frame-Indexed w io f h)

-- However the system answers, failed writes included, after any calls of `WriteContractFrame` on a
-- new writer every line of the index leads to a place in the file of its chunk where the header of a
-- frame stands with the contents of the line, the chunk and the offset taken modulo the width of
-- their fields.
pub run-IsPointed :
    (config : RuntimeConfig) (now : ℕ) (calls : List (World × List ℕ))
    → All (IsPointed (files (run (init config now) calls).0)) (run (init config now) calls).0.index
run-IsPointed config now calls =
    (run_from-Indexed (init config now) calls
      (record { lines = tt; id = refl; offset = λ g o. absurd (cc); closed = λ e. refl })).lines
