-- ===== src/Pipeline/Recorded.antt =====
-- A session that the runtime has recorded, in the scan of the pipeline.
use local_pc.Common.{Bool, ◌≤◌}
use local_pc.Pipeline.Numbers.{Numbers, fed}
use local_pc.Wire.Structs.{field}
use local_pc.Validate.Sound.{RateFine}
use local_pc.Load.Recorded.{Stored, run_groups}
use local_pc.Load.Frames.{frames_at, packets_of-concat, take_all}
use local_pc.Common.{
  All, All-split, List, Option, [], ap, arith, drop, inc64, length, length-append, length-drop, ltb,
  map, none, not, refl, some, subst, suc, sym, take, true, ℕ, ◌%◌, ◌+◌, ◌==◌, ◌^◌, ◌||◌, ◌∙◌, ◌∷◌,
  ◌≡◌, ◌≢◌,
}
use local_pc.Writer.Chunks.{RuntimeConfig, World, init}
use local_pc.Writer.Runs.{run}
use local_pc.Pipeline.Feed.{ScanAccumulator, ego_feeder, feed, new_accumulator, packet_ok}
use local_pc.Pipeline.Command.{scan_ego}
use local_pc.Pipeline.Numbers.{Numbered, feed-Numbered, numbers}
use local_pc.Pipeline.Verdict.{chunks, scan_ego-visit}
use local_pc.Frame.Io.{header_matches, payload_matches, validate_contract_frame}
use local_pc.Frame.Parse.{IsFrame, IsFrame-IsShaped, IsShaped}
use local_pc.Frame.Round.{concat}
use local_pc.Frame.Header.{EgoFrameHeader, decode_header, encode_header}
use local_pc.Load.Packets.{ChunkInfo, Files, Manifest, RawPacket}
use local_pc.Writer.Contents.{Whole, join}
use local_pc.Load.Loop.{deliver_packets}
use local_pc.Load.Visits.{packets_of_chunks, visit}
use local_pc.Load.Scan.{Format, contract_packet, format_of, legacy}
use local_pc.Crc.Offline.{crc32}
use local_pc.Validate.Types.{ValidatorConfig}
use local_pc.Writer.Places

-- Of k packets all are valid.
abbrev all_valid : Bool → ℕ → Numbers
all_valid file_ok k = (k % 2 ^ 64, k % 2 ^ 64, 0, file_ok)

-- A packet that passes the checks, and is no audio block with a sample rate of zero.
abbrev IsGood : RawPacket → Type 0
IsGood p = (packet_ok p ≡ true) × RateFine p

deliver-Numbered :
    (cfg : ValidatorConfig) (b : Bool) (ps : List RawPacket) (k : ℕ) (o : Option ScanAccumulator)
    → All IsGood ps
    → Numbered ⊥ (all_valid b k) o
    → Numbered ⊥ (all_valid b (k + length ps)) (deliver_packets (ego_feeder cfg) ps o).0
unfolding ego_feeder
deliver-Numbered cfg b [] k o h n = subst (λ j. Numbered ⊥ (all_valid b j) o) (omega arith) n
deliver-Numbered cfg b (p ∷ ps) k none h n = absurd n
deliver-Numbered cfg b (p ∷ ps) k (some a) ((h, fine), hs) n =
    subst (λ j. Numbered ⊥ (all_valid b j) (deliver_packets (ego_feeder cfg) (p ∷ ps) (some a)).0)
      (omega arith)
      (deliver-Numbered cfg b ps (suc k) (feed cfg a p (packet_ok p)) hs (
        subst (λ c. Numbered ⊥ (all_valid b (suc k)) (feed cfg a p c)) (sym h)
          (subst (λ t. Numbered ⊥ t (feed cfg a p true)) (next n)
            (feed-Numbered ⊥ cfg a p true fine))))
  where
    next : numbers a.sv ≡ all_valid b k → fed true a.sv ≡ all_valid b (suc k)
    next e =
        ap (λ (t : Numbers). (inc64 t.0, inc64 t.1, t.2, t.3)) e
        ∙ ap (λ (j : ℕ). (j, j, 0, b)) (omega arith)

frame_checks :
    (max : ℕ) (f : List ℕ)
    → IsFrame crc32 max f
    → let h = decode_header f in
      let z : EgoFrameHeader = record h { header_crc32 = 0 } in
      ((not (ltb 0 h.payload_size) || crc32 (drop 72 f) == h.payload_crc32) ≡ true)
      × ((crc32 (encode_header z) == h.header_crc32) ≡ true)
unfolding validate_contract_frame payload_matches header_matches
frame_checks max f h = (ground arith, ground arith)

-- A frame that `ValidateContractFrame` accepts passes the checks of the pipeline.
contract_packet_ok :
    (max chunk_id offset : ℕ) (f : List ℕ)
    → IsFrame crc32 max f
    → packet_ok (contract_packet f chunk_id offset) ≡ true
unfolding packet_ok contract_packet
contract_packet_ok max chunk_id offset f h =
    let s = IsFrame-IsShaped crc32 max f h in
    let whole : take (decode_header f).payload_size (drop 72 f) ≡ drop 72 f =
      take_all _ (drop 72 f) (omega (arith, s.exact, length-drop 72 f)) in
    let size : (decode_header f).payload_size ≡ length (drop 72 f) =
      omega (arith, s.exact, length-drop 72 f) in
    let (payload, header) = frame_checks max f h in
    rw (whole, payload, header) (ground (arith, s.magic, size))

-- A frame of type 1, which the scan takes for an audio block, does not say that its sample rate is zero.
abbrev pub FrameRateFine : List ℕ → Type 0
FrameRateFine f =
    (decode_header f).frame_type % 2 ^ 16 ≡ 1 → 10 ≤ length (drop 72 f) → field 4 2 (drop 72 f) ≢ 0

contract_packet-RateFine :
    (max chunk_id offset : ℕ) (f : List ℕ)
    → IsFrame crc32 max f
    → FrameRateFine f
    → RateFine (contract_packet f chunk_id offset)
unfolding contract_packet
contract_packet-RateFine max chunk_id offset f h fine =
    let s = IsFrame-IsShaped crc32 max f h in
    let whole : take (decode_header f).payload_size (drop 72 f) ≡ drop 72 f =
      take_all _ (drop 72 f) (omega (arith, s.exact, length-drop 72 f)) in
    subst
      (λ (t : List ℕ). (decode_header f).frame_type % 2 ^ 16 ≡ 1 → 10 ≤ length t → field 4 2 t ≢ 0)
      (sym whole) fine

frames_at-IsGood :
    (max chunk_id offset : ℕ) (fs : List (List ℕ))
    → All (IsFrame crc32 max) fs
    → All FrameRateFine fs
    → All IsGood (frames_at chunk_id offset fs)
unfolding frames_at
frames_at-IsGood max chunk_id offset [] h k = tt
frames_at-IsGood max chunk_id offset (f ∷ fs) (h, hs) (k, ks) = (
  (contract_packet_ok max chunk_id offset f h, contract_packet-RateFine max chunk_id offset f h k),
  frames_at-IsGood max chunk_id (offset + length f) fs hs ks,
)

length-frames_at :
    (chunk_id offset : ℕ) (fs : List (List ℕ)) → length (frames_at chunk_id offset fs) ≡ length fs
unfolding frames_at
length-frames_at chunk_id offset [] = refl
length-frames_at chunk_id offset (f ∷ fs) =
    ap suc (length-frames_at chunk_id (offset + length f) fs)

visit-Numbered :
    (cfg : ValidatorConfig) (b : Bool) (max : ℕ) (files : Files) (format : Format)
    (cs : List ChunkInfo) (groups : List (List (List ℕ))) (k : ℕ) (o : Option ScanAccumulator)
    → format ≢ legacy
    → All (All (IsShaped max)) groups
    → All (IsFrame crc32 max) (join groups)
    → All FrameRateFine (join groups)
    → Stored files cs (map concat groups)
    → Numbered ⊥ (all_valid b k) o
    → Numbered ⊥
        (all_valid b (k + length (join groups)))
        (visit (ego_feeder cfg) (packets_of_chunks files format cs) o)
unfolding packets_of_chunks
visit-Numbered cfg b max files format [] [] k o n sh h r st v =
    subst (λ j. Numbered ⊥ (all_valid b j) o) (omega arith) v
visit-Numbered cfg b max files format [] (g ∷ groups) k o n sh h r st v = absurd st
visit-Numbered cfg b max files format (c ∷ cs) [] k o n sh h r st v = absurd st
visit-Numbered cfg b max files format (c ∷ cs) (g ∷ groups) k o n (shg, sh) h r (e, st) v =
    let (hg, hs) = All-split (IsFrame crc32 max) g (join groups) h in
    let (rg, rs) = All-split FrameRateFine g (join groups) r in
    let here = packets_of-concat max c.chunk_id format g n shg in
    let one =
      deliver-Numbered cfg b (frames_at c.chunk_id 0 g) k o
        (frames_at-IsGood max c.chunk_id 0 g hg rg) v in
    rw (e, packets_of_chunks, here)
      (subst
        (λ j. Numbered ⊥ (all_valid b j) (
          visit (ego_feeder cfg) (packets_of_chunks files format cs)
            (deliver_packets (ego_feeder cfg) (frames_at c.chunk_id 0 g) o).0))
        (omega (arith, length-frames_at c.chunk_id 0 g, length-append g (join groups)))
        (visit-Numbered cfg b max files format cs groups (k + length (frames_at c.chunk_id 0 g)) _ n
          sh hs rs st one))

-- The scan of a session that the runtime has recorded, with writes that do not break off in the middle,
-- with frames that `ValidateContractFrame` accepts under the same checksum, none of which is of type 1 with
-- ten bytes or more that say, read as an audio block, that the sample rate is zero. The scan has a
-- result. It counts each frame for which `WriteContractFrame` returned `true`, modulo 2 ^ 64, and all of
-- them as valid; none fails.
pub scan_ego-run :
    (max : ℕ) (config : RuntimeConfig) (now : ℕ) (calls : List (World × List ℕ))
    (cfg : ValidatorConfig) (files : Files) (m : Manifest)
    → All (λ c. Whole c.0) calls
    → All (IsFrame crc32 max) (run (init config now) calls).1
    → All FrameRateFine (run (init config now) calls).1
    → Stored files m.chunks (Places.files (run (init config now) calls).0)
    → (a : ScanAccumulator) × (scan_ego cfg files m ≡ some (some a))
      × (a.sv.packets_total ≡ length (run (init config now) calls).1 % 2 ^ 64)
      × (a.sv.packets_valid ≡ length (run (init config now) calls).1 % 2 ^ 64)
      × (a.sv.packets_crc_failed ≡ 0)
scan_ego-run max config now calls cfg files m fine valid rates st =
    let (groups, in_order, st', shaped, other) =
      run_groups crc32 max config now calls files m fine valid st in
    let (b, scanned, empty) = scan_ego-visit cfg files m in
    let result = visit (ego_feeder cfg) (chunks cfg files m) (some (new_accumulator b)) in
    let numbered : Numbered ⊥ (all_valid b frames) result =
      subst (λ j. Numbered ⊥ (all_valid b j) result) (omega (arith, ap (λ t. length t) in_order))
        (visit-Numbered cfg b max files (format_of files m) m.chunks groups 0
          (some (new_accumulator b)) other shaped
          (subst (λ t. All (IsFrame crc32 max) t) (sym in_order) valid)
          (subst (λ t. All FrameRateFine t) (sym in_order) rates) st' refl) in
    outcome b result scanned numbered
  where
    frames : ℕ
    frames = length (run (init config now) calls).1

    outcome :
        (b : Bool) (o : Option ScanAccumulator)
        → scan_ego cfg files m ≡ some o
        → Numbered ⊥ (all_valid b frames) o
        → (a : ScanAccumulator) × (scan_ego cfg files m ≡ some (some a))
          × (a.sv.packets_total ≡ frames % 2 ^ 64)
          × (a.sv.packets_valid ≡ frames % 2 ^ 64)
          × (a.sv.packets_crc_failed ≡ 0)
    outcome b none e n = absurd n
    outcome b (some a) e n = (
      a,
      e,
      ap (λ (t : Numbers). t.0) n,
      ap (λ (t : Numbers). t.1) n,
      ap (λ (t : Numbers). t.2) n,
    )
