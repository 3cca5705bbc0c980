-- ===== src/Writer/Limits.antt =====
-- How large a chunk file can become.
use local_pc.Common.{
  ℕ, ◌+◌, ◌^◌, ◌≤◌, ◌<◌, ◌≡◌, refl, sym, ap, ◌∙◌, subst, ◌⊎◌, inl, inr, arith, true, false, List,
  [], ◌∷◌, length, length-append, length-take, All, All-append, take,
}
use local_pc.Writer.Chunks.{
  ChunkWriter, RuntimeConfig, World, init, opened, not_opened, flush, next_chunk, rotate_if_needed,
  put_frame, write_contract_frame,
}
use local_pc.Writer.Steps.{
  Anyhow, Kept, rotate-keeps, rotate_ready, put-cases, write-cases, recorded, record_frame-fields,
}
use local_pc.Writer.Runs.{run}

-- Every file within the limit of a chunk and one frame more; while the stream is good the writer
-- knows how many bytes the file has.
pub record Within (config : RuntimeConfig) (frame : ℕ) (w : ChunkWriter) : Type 0 where
  pub same : w.config ≡ config
  pub earlier : All (λ f. length f ≤ config.chunk_max_bytes + frame) w.earlier
  pub file : length w.file ≤ config.chunk_max_bytes + frame
  pub known : w.good ≡ true → w.is_open ≡ true → w.current_chunk_bytes ≡ length w.file
  pub closed : w.is_open ≡ false → w.file ≡ []

module _ (config : RuntimeConfig) (frame : ℕ) where
  Within-Kept : Kept Anyhow (Within config frame)
  unfolding flush next_chunk opened not_opened
  Within-Kept = record {
    on_flush = λ w now flush_ok h. record {
      same = h.same;
      earlier = h.earlier;
      file = h.file;
      known = λ g o. ground (arith, h.known);
      closed = h.closed;
    };
    on_next = λ w h. record {
      same = h.same;
      earlier = All-append _ w.earlier (w.file ∷ []) h.earlier (h.file, tt);
      file = omega arith;
      known = λ g o. absurd (cc);
      closed = λ e. refl;
    };
    on_open = λ w io fine e h. record {
      same = h.same;
      earlier = h.earlier;
      file = omega arith;
      known = λ g o. refl;
      closed = λ e'. refl;
    };
    on_refusal = λ w h. record {
      same = h.same;
      earlier = h.earlier;
      file = h.file;
      known = λ g. absurd (cc);
      closed = h.closed;
    };
  }

  -- A chunk that has room for one more frame: it is empty, or not at its limit.
  abbrev HasRoom : ChunkWriter → Type 0
  HasRoom w = (w.file ≡ []) ⊎ (w.current_chunk_bytes < w.config.chunk_max_bytes)

  room-length :
      (w : ChunkWriter)
      → w.is_open ≡ true
      → w.good ≡ true
      → HasRoom w
      → Within config frame w
      → length w.file ≤ config.chunk_max_bytes
  room-length w o g (inl e) h = omega (arith, ap (λ (t : List ℕ). length t) e)
  room-length w o g (inr l) h =
      omega (arith, h.known g o, ap (λ (t : RuntimeConfig). t.chunk_max_bytes) h.same)

  room_after :
      (w : ChunkWriter) (io : World)
      → ((rotate_if_needed w io).0.file ≡ [])
        ⊎ (((rotate_if_needed w io).0 ≡ w) × (w.current_chunk_bytes < w.config.chunk_max_bytes))
      → HasRoom (rotate_if_needed w io).0
  room_after w io (inl e) = inl e
  room_after w io (inr (e, l)) =
      inr (subst (λ (t : ChunkWriter). t.current_chunk_bytes < t.config.chunk_max_bytes) (sym e) l)

  recorded-Within :
      (w : ChunkWriter) (io : World) (f : List ℕ)
      → config.chunk_max_bytes + frame < 2 ^ 64
      → length f ≤ frame
      → w.is_open ≡ true
      → length w.file ≤ config.chunk_max_bytes
      → w.good ≡ true
      → Within config frame w
      → Within config frame (recorded w io f)
  recorded-Within w io f small l o short g h =
      let (file, earlier, is_open, same, bytes, packets, id, offset, chunk) =
        record_frame-fields w io f in
      let long : length (recorded w io f).file ≡ length w.file + length f =
        ap (λ t. length t) file ∙ length-append w.file f in
      record {
        same = same ∙ h.same;
        earlier =
            subst (λ t. All (λ f. length f ≤ config.chunk_max_bytes + frame) t) (sym earlier)
              h.earlier;
        file = omega arith;
        known = λ g' o'. omega (arith, h.known g o);
        closed = λ c. absurd (cc);
      }

  put_frame-Within :
      (w : ChunkWriter) (io : World) (f : List ℕ)
      → config.chunk_max_bytes + frame < 2 ^ 64
      → length f ≤ frame
      → w.is_open ≡ true
      → HasRoom w
      → Within config frame w
      → Within config frame (put_frame w io f).0
  put_frame-Within w io f small l o room h = elim (put-cases w io f) [
    | inl e ↦ subst (λ t. Within config frame t.0) (sym e) h
    | inr (inl (n, e, g, p)) ↦
        subst (λ t. Within config frame t.0) (sym p)
          (record {
            same = h.same;
            earlier = h.earlier;
            file =
                omega (
                  arith,
                  length-append w.file (take n f),
                  length-take n f,
                  room-length w o g room h,
                );
            known = λ g'. absurd (cc);
            closed = λ c. absurd (cc);
          })
    | inr (inr (m, g, e, p)) ↦
        subst (λ t. Within config frame t.0) (sym p)
          (recorded-Within w io f small l o (room-length w o g room h) g h)
  ]

  pub write_contract_frame-Within :
      (w : ChunkWriter) (io : World) (f : List ℕ)
      → config.chunk_max_bytes + frame < 2 ^ 64
      → length f ≤ frame
      → Within config frame w
      → Within config frame (write_contract_frame w io f).0
  write_contract_frame-Within w io f small l h = elim (write-cases w io f) [
    | inl e ↦ subst (λ t. Within config frame t.0) (sym e) h
    | inr (inl e) ↦
        subst (λ t. Within config frame t.0) (sym e)
          (rotate-keeps Anyhow (Within config frame) Within-Kept w io tt h)
    | inr (inr (long, r, e)) ↦
        subst (λ t. Within config frame t.0) (sym e)
          (let (o, room) = rotate_ready w io r in
            put_frame-Within _ io f small l o (room_after w io room)
              (rotate-keeps Anyhow (Within config frame) Within-Kept w io tt h))
  ]

  run_from-Within :
      (w : ChunkWriter) (calls : List (World × List ℕ))
      → config.chunk_max_bytes + frame < 2 ^ 64
      → All (λ c. length c.1 ≤ frame) calls
      → Within config frame w
      → Within config frame (run w calls).0
  unfolding run
  run_from-Within w [] small l h = h
  run_from-Within w ((io, f) ∷ calls) small (l, ls) h =
      run_from-Within (write_contract_frame w io f).0 calls small ls
        (write_contract_frame-Within w io f small l h)

-- However the system answers, failed writes included, after any calls of `WriteContractFrame` with
-- frames of at most `frame` bytes on a new writer, every chunk file has at most `frame` bytes more
-- than the configured limit of a chunk, if these together are below 2 ^ 64.
pub run-Within :
    (config : RuntimeConfig) (frame now : ℕ) (calls : List (World × List ℕ))
    → config.chunk_max_bytes + frame < 2 ^ 64
    → All (λ c. length c.1 ≤ frame) calls
    → All (λ f. length f ≤ config.chunk_max_bytes + frame) (run (init config now) calls).0.earlier
      × (length (run (init config now) calls).0.file ≤ config.chunk_max_bytes + frame)
run-Within config frame now calls small l =
    let h = run_from-Within config frame (init config now) calls small l (record {
      same = refl;
      earlier = tt;
      file = omega arith;
      known = λ g o. absurd (cc);
      closed = λ e. refl;
    }) in
    (h.earlier, h.file)
