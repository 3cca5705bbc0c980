-- ===== src/Writer/Contents.antt =====
-- What the chunk files hold: the frames that were reported as written, cut into chunks.
use local_pc.Common.{
  ℕ, ◌%◌, ◌^◌, ◌≡◌, refl, sym, ap, ap₂, ◌∙◌, arith, Bool, true, false, none, List, [], ◌∷◌, ◌++◌,
  map, length, length-append, All,
}
use mathlib.Core.List.{append_assoc, append-nil}
use local_pc.Frame.Round.{concat}
use local_pc.Writer.Runs.{Logged, run, run-keeps}
use local_pc.Writer.Chunks.{
  ChunkWriter, RuntimeConfig, World, init, opened, not_opened, flush, next_chunk,
}
use local_pc.Writer.Steps.{Kept, recorded, record_frame-fields}

-- Writes do not break off in the middle.
abbrev pub Whole : World → Type 0
Whole io = io.write_fails ≡ none

-- The frames of all chunks.
abbrev pub join : List (List (List ℕ)) → List (List ℕ)
join [] = []
join (g ∷ gs) = g ++ join gs

-- The files of the earlier chunks hold `groups`, the current one `current`.
pub record Holds (written : List (List ℕ)) (w : ChunkWriter) : Type 0 where
  pub groups : List (List (List ℕ))
  pub current : List (List ℕ)
  pub earlier : w.earlier ≡ map concat groups
  pub file : w.file ≡ concat current
  pub all : join groups ++ current ≡ written
  pub closed : w.is_open ≡ false → current ≡ []
  pub bytes : w.total_bytes ≡ length (concat written) % 2 ^ 64
  pub packets : w.total_packets ≡ length written % 2 ^ 32

pub join-snoc : (gs : List (List (List ℕ))) (g : List (List ℕ)) → join (gs ++ g ∷ []) ≡ join gs ++ g
join-snoc [] g = append-nil g
join-snoc (h ∷ gs) g = ap (λ t. h ++ t) (join-snoc gs g) ∙ sym (append_assoc h (join gs) g)

pub map-snoc :
    (gs : List (List (List ℕ))) (g : List (List ℕ))
    → map concat (gs ++ g ∷ []) ≡ map concat gs ++ concat g ∷ []
map-snoc [] g = refl
map-snoc (h ∷ gs) g = ap (λ t. concat h ∷ t) (map-snoc gs g)

concat-append : (xs ys : List (List ℕ)) → concat (xs ++ ys) ≡ concat xs ++ concat ys
concat-append [] ys = refl
concat-append (x ∷ xs) ys =
    ap (λ t. x ++ t) (concat-append xs ys) ∙ sym (append_assoc x (concat xs) (concat ys))

concat-snoc : (xs : List (List ℕ)) (x : List ℕ) → concat (xs ++ x ∷ []) ≡ concat xs ++ x
concat-snoc xs x = concat-append xs (x ∷ []) ∙ ap (λ t. concat xs ++ t) (append-nil x)

flush-Holds :
    (written : List (List ℕ)) (w : ChunkWriter) (now : ℕ) (ok : Bool)
    → Holds written w
    → Holds written (flush w now ok)
unfolding flush
flush-Holds written w now ok h = record {
  groups = h.groups;
  current = h.current;
  earlier = h.earlier;
  file = h.file;
  all = h.all;
  closed = h.closed;
  bytes = h.bytes;
  packets = h.packets;
}

next_chunk-Holds :
    (written : List (List ℕ)) (w : ChunkWriter) → Holds written w → Holds written (next_chunk w)
unfolding next_chunk
next_chunk-Holds written w h = record {
  groups = h.groups ++ h.current ∷ [];
  current = [];
  earlier = ap₂ (λ a b. a ++ b ∷ []) h.earlier h.file ∙ sym (map-snoc h.groups h.current);
  file = refl;
  all = append-nil _ ∙ join-snoc h.groups h.current ∙ h.all;
  closed = λ e. refl;
  bytes = h.bytes;
  packets = h.packets;
}

opened-Holds :
    (written : List (List ℕ)) (w : ChunkWriter) (io : World)
    → w.is_open ≡ false
    → Holds written w
    → Holds written (opened w io)
unfolding opened
opened-Holds written w io e h = record {
  groups = h.groups;
  current = h.current;
  earlier = h.earlier;
  file = sym (ap concat (h.closed e));
  all = h.all;
  closed = λ e'. h.closed e;
  bytes = h.bytes;
  packets = h.packets;
}

not_opened-Holds :
    (written : List (List ℕ)) (w : ChunkWriter) → Holds written w → Holds written (not_opened w)
unfolding not_opened
not_opened-Holds written w h = record {
  groups = h.groups;
  current = h.current;
  earlier = h.earlier;
  file = h.file;
  all = h.all;
  closed = h.closed;
  bytes = h.bytes;
  packets = h.packets;
}

Holds-Kept : (written : List (List ℕ)) → Kept Whole (Holds written)
Holds-Kept written = record {
  on_flush = flush-Holds written;
  on_next = next_chunk-Holds written;
  on_open = λ w io fine. opened-Holds written w io;
  on_refusal = not_opened-Holds written;
}

-- A frame more in the current chunk.
recorded-Holds :
    (written : List (List ℕ)) (w : ChunkWriter) (io : World) (f : List ℕ)
    → w.is_open ≡ true
    → Holds written w
    → Holds (written ++ f ∷ []) (recorded w io f)
recorded-Holds written w io f o h =
    let (file, earlier, is_open, config, bytes, packets, id, offset, chunk) =
      record_frame-fields w io f in
    record {
      groups = h.groups;
      current = h.current ++ f ∷ [];
      earlier = earlier ∙ h.earlier;
      file = file ∙ ap (λ t. t ++ f) h.file ∙ sym (concat-snoc h.current f);
      all = sym (append_assoc (join h.groups) h.current (f ∷ [])) ∙ ap (λ t. t ++ f ∷ []) h.all;
      closed = λ c. absurd (cc);
      bytes = omega (
        arith,
        bytes,
        h.bytes,
        ap (λ (t : List ℕ). length t) (concat-snoc written f),
        length-append (concat written) f,
      );
      packets = omega (arith, packets, h.packets, length-append written (f ∷ []));
    }

pub Holds-Logged : Logged Whole Holds
Holds-Logged = record {
  kept = Holds-Kept;
  whole = λ io fine. fine;
  on_frame = λ written w io f fine o h. recorded-Holds written w io f o h;
}

-- When writes do not break off in the middle, whatever else fails: after any calls of
-- `WriteContractFrame` on a new writer, each chunk file is a sequence of whole frames, and the files
-- in the order of their chunks hold exactly the frames for which the calls returned `true`, in their
-- order; `TotalBytesWritten` and `TotalPacketsWritten` are their bytes and their number, modulo the
-- width of these counters.
pub run-Holds :
    (config : RuntimeConfig) (now : ℕ) (calls : List (World × List ℕ))
    → All (λ c. Whole c.0) calls
    → Holds (run (init config now) calls).1 (run (init config now) calls).0
run-Holds config now calls fine =
    run-keeps Whole Holds Holds-Logged [] (init config now) calls fine (record {
      groups = [];
      current = [];
      earlier = refl;
      file = refl;
      all = refl;
      closed = λ e. refl;
      bytes = refl;
      packets = refl;
    })
