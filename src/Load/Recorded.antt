-- ===== src/Load/Recorded.antt =====
-- What the runtime has written is what `EgoLogReader::scan` reads.
use local_pc.Common.{
  All, All-split, Bool, List, [], ap, ap₂, map, refl, some, subst, sym, true, ℕ, ◌++◌, ◌∙◌, ◌∷◌,
  ◌≡◌, ◌≢◌,
}
use local_pc.Writer.Chunks.{RuntimeConfig, World, init}
use local_pc.Writer.Runs.{run}
use local_pc.Wire.Structs.{field}
use local_pc.Frame.Parse.{IsFrame, IsFrame-IsShaped, IsShaped}
use local_pc.Frame.Round.{concat}
use local_pc.Frame.Header.{EgoFrameHeader}
use local_pc.Load.Packets.{ChunkInfo, Files, Manifest, RawPacket}
use local_pc.Writer.Contents.{Whole, join, join-snoc, map-snoc, run-Holds}
use local_pc.Load.Loop.{deliver_packets}
use local_pc.Load.Frames.{detect_format_frame, of_frame, shown, shown-packets_of}
use local_pc.Load.Visits.{packets_of, packets_of_chunks, scan_chunks-visit, visit}
use local_pc.Load.Scan.{Format, detect_format, format_of, legacy, scan, unknown}
use local_pc.Wire.Words.{le_value}
use local_pc.Writer.Places
use mathlib.Core.List.{append-nil, append_assoc, map-append}

-- The files of the chunks, in the order of the manifest.
abbrev pub Stored : Files → List ChunkInfo → List (List ℕ) → Type 0
Stored files [] [] = Unit {0}
Stored files [] (b ∷ bs) = ⊥
Stored files (c ∷ cs) [] = ⊥
Stored files (c ∷ cs) (b ∷ bs) = (files c.path ≡ some b) × Stored files cs bs

-- The handler that keeps what a packet shows.
abbrev pub keep : List (EgoFrameHeader × List ℕ) → RawPacket → List (EgoFrameHeader × List ℕ) × Bool
keep kept p = (kept ++ shown p ∷ [], true)

deliver_packets-keep :
    (ps : List RawPacket) (kept : List (EgoFrameHeader × List ℕ))
    → (deliver_packets keep ps kept).0 ≡ kept ++ map shown ps
deliver_packets-keep [] kept = sym (append-nil kept)
deliver_packets-keep (p ∷ ps) kept =
    deliver_packets-keep ps (kept ++ shown p ∷ []) ∙ append_assoc kept (shown p ∷ []) (map shown ps)

-- Chunks that hold frames show these frames.
visit-keep :
    (max : ℕ) (files : Files) (format : Format) (chunks : List ChunkInfo)
    (groups : List (List (List ℕ))) (kept : List (EgoFrameHeader × List ℕ))
    → format ≢ legacy
    → All (All (IsShaped max)) groups
    → Stored files chunks (map concat groups)
    → visit keep (packets_of_chunks files format chunks) kept ≡ kept ++ map of_frame (join groups)
unfolding packets_of_chunks
visit-keep max files format [] [] kept n h st = sym (append-nil kept)
visit-keep max files format [] (g ∷ groups) kept n h st = absurd st
visit-keep max files format (c ∷ chunks) [] kept n h st = absurd st
visit-keep max files format (c ∷ chunks) (g ∷ groups) kept n (hg, h) (e, st) =
    rw (e, packets_of_chunks)
      (visit-keep max files format chunks groups _ n h st
        ∙ ap (λ t. t ++ map of_frame (join groups))
            (deliver_packets-keep (packets_of format (concat g) c.chunk_id) kept
              ∙ ap (λ t. kept ++ t) (shown-packets_of max c.chunk_id format g n hg))
        ∙ append_assoc kept (map of_frame g) (map of_frame (join groups))
        ∙ ap (λ t. kept ++ t) (sym (map-append of_frame g (join groups))))

detect_format_nil : detect_format (some []) ≡ unknown
unfolding detect_format field le_value
detect_format_nil = refl

format_of-ne_legacy :
    (max : ℕ) (files : Files) (m : Manifest) (groups : List (List (List ℕ)))
    → All (All (IsShaped max)) groups
    → Stored files m.chunks (map concat groups)
    → format_of files m ≢ legacy
unfolding format_of
format_of-ne_legacy max files m groups h st = first m.chunks groups h st
  where
    first :
        (chunks : List ChunkInfo) (groups : List (List (List ℕ)))
        → All (All (IsShaped max)) groups
        → Stored files chunks (map concat groups)
        → elim chunks [ [] ↦ unknown | c ∷ _ ↦ detect_format (files c.path) ] ≢ legacy
    first [] groups h st = λ e. cc
    first (c ∷ chunks) [] h st = absurd st
    first (c ∷ chunks) ([] ∷ groups) h (e, st) = rw (e, detect_format_nil) (λ e'. cc)
    first (c ∷ chunks) ((f ∷ fs) ∷ groups) ((hf, hfs), h) (e, st) =
        rw e (rw (detect_format_frame max f (concat fs) hf) (λ e'. cc))

All-IsShaped :
    (crc32 : List ℕ → ℕ) (max : ℕ) (fs : List (List ℕ))
    → All (IsFrame crc32 max) fs
    → All (IsShaped max) fs
All-IsShaped crc32 max [] h = tt
All-IsShaped crc32 max (f ∷ fs) (h, hs) =
    (IsFrame-IsShaped crc32 max f h, All-IsShaped crc32 max fs hs)

groups-IsShaped :
    (crc32 : List ℕ → ℕ) (max : ℕ) (groups : List (List (List ℕ)))
    → All (IsFrame crc32 max) (join groups)
    → All (All (IsShaped max)) groups
groups-IsShaped crc32 max [] h = tt
groups-IsShaped crc32 max (g ∷ groups) h =
    let (hg, hs) = All-split (IsFrame crc32 max) g (join groups) h in
    (All-IsShaped crc32 max g hg, groups-IsShaped crc32 max groups hs)

-- The chunks of a recorded session hold its frames, in groups.
pub run_groups :
    (crc32 : List ℕ → ℕ) (max : ℕ) (config : RuntimeConfig) (now : ℕ)
    (calls : List (World × List ℕ)) (files : Files) (m : Manifest)
    → All (λ c. Whole c.0) calls
    → All (IsFrame crc32 max) (run (init config now) calls).1
    → Stored files m.chunks (Places.files (run (init config now) calls).0)
    → (groups : List (List (List ℕ))) × (join groups ≡ (run (init config now) calls).1)
      × Stored files m.chunks (map concat groups)
      × All (All (IsShaped max)) groups
      × (format_of files m ≢ legacy)
run_groups crc32 max config now calls files m fine valid st =
    let h = run-Holds config now calls fine in
    let groups = h.groups ++ h.current ∷ [] in
    let in_order : join groups ≡ (run (init config now) calls).1 =
      join-snoc h.groups h.current ∙ h.all in
    let there : Places.files (run (init config now) calls).0 ≡ map concat groups =
      ap₂ (λ a b. a ++ b ∷ []) h.earlier h.file ∙ sym (map-snoc h.groups h.current) in
    let shaped : All (All (IsShaped max)) groups =
      groups-IsShaped crc32 max groups
        (subst (λ t. All (IsFrame crc32 max) t) (sym in_order) valid) in
    let st' : Stored files m.chunks (map concat groups) =
      subst (λ t. Stored files m.chunks t) there st in
    (groups, in_order, st', shaped, format_of-ne_legacy max files m groups shaped st')

-- What the runtime records the offline side reads: after calls of `WriteContractFrame` on a new
-- writer, with writes that do not break off in the middle, and frames that `ValidateContractFrame`
-- accepts, a scan of the chunk files in their order shows to its handler the header and the payload
-- of exactly the frames for which the calls returned `true`, in their order.
pub scan-run :
    (crc32 : List ℕ → ℕ) (max : ℕ) (config : RuntimeConfig) (now : ℕ)
    (calls : List (World × List ℕ)) (files : Files) (m : Manifest)
    → All (λ c. Whole c.0) calls
    → All (IsFrame crc32 max) (run (init config now) calls).1
    → Stored files m.chunks (Places.files (run (init config now) calls).0)
    → scan files m keep [] ≡ some (map of_frame (run (init config now) calls).1)
unfolding scan
scan-run crc32 max config now calls files m fine valid st =
    let (groups, in_order, st', shaped, other) =
      run_groups crc32 max config now calls files m fine valid st in
    scan_chunks-visit keep files (format_of files m) m.chunks []
    ∙ ap some (
        visit-keep max files (format_of files m) m.chunks groups [] other shaped st'
        ∙ ap (map of_frame) in_order)
