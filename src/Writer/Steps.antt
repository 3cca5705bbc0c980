-- ===== src/Writer/Steps.antt =====
-- The ways in which the operations of the writer go, and that what its parts keep the whole keeps.
use local_pc.Common.{
  inc32, add64, sym, [], subst, Bool, ◌∙◌, ==_iff, Option-cases, ◌==◌, ℕ, ◌≤◌, ◌<◌, ◌≡◌, refl, ap,
  ◌⊎◌, inl, inr, arith, true, false, Option, none, some, List, ◌++◌, length, take, Bool-cases,
}
use local_pc.Frame.Header.{frame_magic, decode_header}
use local_pc.Writer.Chunks.{
  count_written, append_contract_index, flush_if_due, record_frame, ChunkWriter, World, opened,
  not_opened, open_chunk, flush, next_chunk, rotate_if_needed, stream_write, put_frame,
  write_contract_frame,
}

-- The writer with the old chunk closed.
abbrev pub turned : ChunkWriter → World → ChunkWriter
turned w io = next_chunk (flush w io.rotate_flush_time io.rotate_flush_ok)

pub rotate-cases :
    (w : ChunkWriter) (io : World)
    → ((w.is_open ≡ true)
        × (w.current_chunk_bytes < w.config.chunk_max_bytes)
        × (rotate_if_needed w io ≡ (w, true)))
      ⊎ ((w.is_open ≡ false) × (rotate_if_needed w io ≡ open_chunk w io))
      ⊎ ((w.is_open ≡ true) × (rotate_if_needed w io ≡ open_chunk (turned w io) io))
unfolding rotate_if_needed
rotate-cases w io = ground arith

pub open_chunk-cases :
    (w : ChunkWriter) (io : World)
    → ((w.is_open ≡ false) × (open_chunk w io ≡ (opened w io, true)))
      ⊎ (open_chunk w io ≡ (not_opened w, false))
unfolding open_chunk
open_chunk-cases w io = ground arith

-- The writer when a frame has gone to the stream as a whole.
abbrev pub with_frame : ChunkWriter → List ℕ → ChunkWriter
with_frame w f = record w { file = w.file ++ f }

abbrev pub recorded : ChunkWriter → World → List ℕ → ChunkWriter
recorded w io f = record_frame (with_frame w f) (decode_header f) io f

put_bad_magic :
    (w : ChunkWriter) (io : World) (f : List ℕ)
    → ((decode_header f).magic == frame_magic) ≡ false
    → put_frame w io f ≡ (w, false)
unfolding put_frame
put_bad_magic w io f h = rw (h, put_frame)

put_refused :
    (w w' : ChunkWriter) (io : World) (f : List ℕ)
    → ((decode_header f).magic == frame_magic) ≡ true
    → stream_write w io.write_fails f ≡ w'
    → w'.good ≡ false
    → put_frame w io f ≡ (w', false)
unfolding put_frame
put_refused w w' io f h e g = ground arith

pub put_taken :
    (w w' : ChunkWriter) (io : World) (f : List ℕ)
    → ((decode_header f).magic == frame_magic) ≡ true
    → stream_write w io.write_fails f ≡ w'
    → w'.good ≡ true
    → put_frame w io f ≡ (record_frame w' (decode_header f) io f, true)
unfolding put_frame
put_taken w w' io f h e g = ground arith

stream_not_good :
    (w : ChunkWriter) (fails : Option ℕ) (f : List ℕ) → w.good ≡ false → stream_write w fails f ≡ w
unfolding stream_write
stream_not_good w fails f g = ground arith

stream_breaks :
    (w : ChunkWriter) (n : ℕ) (f : List ℕ)
    → w.good ≡ true
    → stream_write w (some n) f ≡ record w { file = w.file ++ take n f; good = false }
unfolding stream_write
stream_breaks w n f g = ground arith

pub stream_writes :
    (w : ChunkWriter) (f : List ℕ) → w.good ≡ true → stream_write w none f ≡ with_frame w f
unfolding stream_write
stream_writes w f g = ground arith

pub put-cases :
    (w : ChunkWriter) (io : World) (f : List ℕ)
    → (put_frame w io f ≡ (w, false))
      ⊎ ((n : ℕ) × (io.write_fails ≡ some n)
          × (w.good ≡ true)
          × (put_frame w io f ≡ (record w { file = w.file ++ take n f; good = false }, false)))
      ⊎ (((decode_header f).magic ≡ frame_magic)
          × (w.good ≡ true)
          × (io.write_fails ≡ none)
          × (put_frame w io f ≡ (recorded w io f, true)))
unfolding put_frame stream_write
put-cases w io f = elim (Bool-cases ((decode_header f).magic == frame_magic)) [
  | inr bad ↦ inl (put_bad_magic w io f bad)
  | inl right ↦ elim (Bool-cases w.good) [
    | inr not_good ↦ inl (put_refused w w io f right (stream_not_good w _ f not_good) not_good)
    | inl good ↦ elim (Option-cases io.write_fails) [
      | inr (n, e) ↦ inr (
          inl (
            n,
            e,
            good,
            put_refused w (record w { file = w.file ++ take n f; good = false }) io f right
                (ap (λ t. stream_write w t f) e ∙ stream_breaks w n f good) refl,
          ))
      | inl e ↦ inr (
          inr (
            (==_iff _ _).0 right,
            good,
            e,
            put_taken w (with_frame w f) io f right
                (ap (λ t. stream_write w t f) e ∙ stream_writes w f good) good,
          ))
    ]
  ]
]

pub write-cases :
    (w : ChunkWriter) (io : World) (f : List ℕ)
    → (write_contract_frame w io f ≡ (w, false))
      ⊎ (write_contract_frame w io f ≡ ((rotate_if_needed w io).0, false))
      ⊎ ((72 ≤ length f)
          × ((rotate_if_needed w io).1 ≡ true)
          × (write_contract_frame w io f ≡ put_frame (rotate_if_needed w io).0 io f))
unfolding write_contract_frame
write-cases w io f = ground arith

pub flush_if_due-cases :
    (w : ChunkWriter) (io : World)
    → (flush_if_due w io ≡ flush w io.flush_time io.flush_ok) ⊎ (flush_if_due w io ≡ w)
unfolding flush_if_due
flush_if_due-cases w io = ground arith

-- What each of the steps before a frame keeps, when the system answers in a given way.
pub record Kept {ℓ κ} (Fine : World → Type κ) (P : ChunkWriter → Type ℓ) : Type (ℓ ⊔ κ) where
  pub on_flush : (w : ChunkWriter) (now : ℕ) (flush_ok : Bool) → P w → P (flush w now flush_ok)
  pub on_next : (w : ChunkWriter) → P w → P (next_chunk w)
  pub on_open : (w : ChunkWriter) (io : World) → Fine io → w.is_open ≡ false → P w → P (opened w io)
  pub on_refusal : (w : ChunkWriter) → P w → P (not_opened w)

module _ {ℓ κ} (Fine : World → Type κ) (P : ChunkWriter → Type ℓ) (kept : Kept Fine P) where
  pub open_chunk-keeps : (w : ChunkWriter) (io : World) → Fine io → P w → P (open_chunk w io).0
  open_chunk-keeps w io fine p = elim (open_chunk-cases w io) [
    | inl (e, o) ↦ subst (λ t. P t.0) (sym o) (kept.on_open w io fine e p)
    | inr o ↦ subst (λ t. P t.0) (sym o) (kept.on_refusal w p)
  ]

  pub rotate-keeps : (w : ChunkWriter) (io : World) → Fine io → P w → P (rotate_if_needed w io).0
  rotate-keeps w io fine p = elim (rotate-cases w io) [
    | inl (o, l, e) ↦ subst (λ t. P t.0) (sym e) p
    | inr (inl (c, e)) ↦ subst (λ t. P t.0) (sym e) (open_chunk-keeps w io fine p)
    | inr (inr (o, e)) ↦
        subst (λ t. P t.0) (sym e)
          (open_chunk-keeps (turned w io) io fine
            (kept.on_next _ (kept.on_flush w io.rotate_flush_time io.rotate_flush_ok p)))
  ]

  pub flush_if_due-keeps : (w : ChunkWriter) (io : World) → P w → P (flush_if_due w io)
  flush_if_due-keeps w io p = elim (flush_if_due-cases w io) [
    | inl e ↦ subst P (sym e) (kept.on_flush w io.flush_time io.flush_ok p)
    | inr e ↦ subst P (sym e) p
  ]

-- After a rotation that went well the chunk is open: the old one, not yet at its limit, or a new one,
-- which is empty.
pub rotate_ready :
    (w : ChunkWriter) (io : World)
    → (rotate_if_needed w io).1 ≡ true
    → ((rotate_if_needed w io).0.is_open ≡ true)
      × (((rotate_if_needed w io).0.file ≡ [])
          ⊎ (((rotate_if_needed w io).0 ≡ w) × (w.current_chunk_bytes < w.config.chunk_max_bytes)))
unfolding rotate_if_needed open_chunk opened
rotate_ready w io h = ground arith

pub record_frame-fields :
    (w : ChunkWriter) (io : World) (f : List ℕ)
    → let r = recorded w io f in
      (r.file ≡ w.file ++ f)
      × (r.earlier ≡ w.earlier)
      × (r.is_open ≡ w.is_open)
      × (r.config ≡ w.config)
      × (r.total_bytes ≡ add64 w.total_bytes (length f))
      × (r.total_packets ≡ inc32 w.total_packets)
      × (r.current_chunk_id ≡ w.current_chunk_id)
      × (r.current_chunk_offset ≡ add64 w.current_chunk_offset (length f))
      × (r.current_chunk_bytes ≡ add64 w.current_chunk_bytes (length f))
unfolding record_frame append_contract_index count_written flush_if_due flush
record_frame-fields w io f = ground arith

-- No condition on what the system answers.
abbrev pub Anyhow : World → Type 0
Anyhow io = Unit
