-- ===== src/Pipeline/Verdict.antt =====
-- The scan of the pipeline agrees with the validator on a session of packets that are not contract frames.
use local_pc.Common.{
  ◌%◌, ◌^◌, ◌↔◌, Bool, ap, arith, if_both, pos, subst, sym, true, ℤ, ◌&&◌, ◌∙◌, ◌⊎◌, Bool-cases,
  drop, ltb, not, ◌==◌, ◌||◌, All, List, Option, Option-cases, [], false, inl, inr, length, none,
  refl, some, suc, zero, ℕ, ◌∷◌, ◌≡◌,
}
use local_pc.Pipeline.Refused.{CountsRefused, ego_feeder-CountsRefused, finish-crc}
use local_pc.Load.History.{IfGives, all_packets, visit-history}
use local_pc.Validate.Seen.{Notes, checksum_failures, ego_handler-Notes, refusals, stamps}
use local_pc.Pipeline.Near.{close, Agrees, Alike, Close-seen}
use local_pc.Pipeline.Agreement.{Close-same, packet-Agrees}
use local_pc.Pipeline.Feed.{new_accumulator, ScanAccumulator, ego_feeder, feed, packet_ok}
use local_pc.Pipeline.Command.{scan_ego}
use local_pc.Pipeline.Losses.{check_seq_gaps_lost, lost_over}
use local_pc.Pipeline.Counts.{check_seq_gap-counts, counts}
use local_pc.Load.Visits.{scan_chunks-visit, packets_of, packets_of_chunks, visit}
use local_pc.Load.Scan.{
  format_of, scan, Fetched, break, fetch_legacy, legacy, legacy_packet, packet, skip,
}
use local_pc.Load.Packets.{Manifest, decode_packet_header, k_magic, ChunkInfo, Files, RawPacket}
use local_pc.Validate.Types.{StreamId, no_validation, StreamValidation, ValidatorConfig}
use local_pc.Validate.Streams.{
  check_seq_gap, check_seq_gaps, compare_with_manifest, finish_ego, start_ego, validate_ego,
  EgoScan, check_ego_packet, check_files, ego_handler,
}
use local_pc.Load.Loop.{deliver_packets, packets_in}

abbrev IsPlain : RawPacket → Type 0
IsPlain p = p.is_contract ≡ false

deliver-Alike :
    (cfg : ValidatorConfig) (ps : List RawPacket) (o : Option EgoScan) (o' : Option ScanAccumulator)
    → All IsPlain ps
    → Alike Agrees o o'
    → Alike Agrees
        (deliver_packets (ego_handler cfg) ps o).0
        (deliver_packets (ego_feeder cfg) ps o').0
unfolding ego_handler ego_feeder
deliver-Alike cfg [] o o' h k = k
deliver-Alike cfg (p ∷ ps) none none h k = tt
deliver-Alike cfg (p ∷ ps) none (some a) h k = absurd k
deliver-Alike cfg (p ∷ ps) (some s) none h k = absurd k
deliver-Alike cfg (p ∷ ps) (some s) (some a) (h, hs) k =
    deliver-Alike cfg ps (check_ego_packet cfg s p) (feed cfg a p (packet_ok p)) hs
      (packet-Agrees cfg p s a h k)

visit-Alike :
    (cfg : ValidatorConfig) (chunks : List (List RawPacket)) (o : Option EgoScan)
    (o' : Option ScanAccumulator)
    → All (All IsPlain) chunks
    → Alike Agrees o o'
    → Alike Agrees (visit (ego_handler cfg) chunks o) (visit (ego_feeder cfg) chunks o')
visit-Alike cfg [] o o' h k = k
visit-Alike cfg (ps ∷ chunks) o o' (h, hs) k =
    visit-Alike cfg chunks _ _ hs (deliver-Alike cfg ps o o' h k)

-- What is fetched is not a contract frame.
abbrev Plain : Fetched → Type 0
Plain break = Unit {0}
Plain (skip rest next) = Unit {0}
Plain (packet p rest next) = IsPlain p

fetch_legacy-Plain :
    (chunk_id : ℕ) (bytes : List ℕ) (offset : ℕ) → Plain (fetch_legacy chunk_id bytes offset)
unfolding fetch_legacy legacy_packet
fetch_legacy-Plain chunk_id bytes offset =
    let hdr = decode_packet_header bytes in
    elim (Bool-cases (ltb (length bytes) 34 || not (hdr.magic == k_magic))) [
      | inl e ↦ rw e tt
      | inr e ↦ elim (Bool-cases (ltb (length (drop 34 bytes)) hdr.payload_size)) [
        | inl short ↦ rw (e, short) tt
        | inr full ↦ rw (e, full) refl
      ]
    ]

-- What is behind a packet is left to the rest of the loop.
rest-IsPlain :
    (chunk_id fuel : ℕ) (r : Fetched)
    → Plain r
    → ((rest : List ℕ) (next : ℕ) → All IsPlain (packets_in (fetch_legacy chunk_id) fuel rest next))
    → All IsPlain (elim r [
      | break ↦ []
      | skip rest next ↦ packets_in (fetch_legacy chunk_id) fuel rest next
      | packet p rest next ↦ p ∷ packets_in (fetch_legacy chunk_id) fuel rest next
    ])
rest-IsPlain chunk_id fuel break h k = tt
rest-IsPlain chunk_id fuel (skip rest next) h k = k rest next
rest-IsPlain chunk_id fuel (packet p rest next) h k = (h, k rest next)

legacy-IsPlain :
    (chunk_id fuel : ℕ) (bytes : List ℕ) (offset : ℕ)
    → All IsPlain (packets_in (fetch_legacy chunk_id) fuel bytes offset)
unfolding packets_in
legacy-IsPlain chunk_id zero bytes offset = tt
legacy-IsPlain chunk_id (suc fuel) bytes offset =
    rest-IsPlain chunk_id fuel (fetch_legacy chunk_id bytes offset)
      (fetch_legacy-Plain chunk_id bytes offset)
      (λ rest next. legacy-IsPlain chunk_id fuel rest next)

chunks-IsPlain :
    (files : Files) (chunks : List ChunkInfo)
    → All (All IsPlain) (packets_of_chunks files legacy chunks)
unfolding packets_of_chunks packets_of
chunks-IsPlain files [] = tt
chunks-IsPlain files (c ∷ chunks) = elim (Option-cases (files c.path)) [
  | inl e ↦ rw (e, packets_of_chunks) (chunks-IsPlain files chunks)
  | inr (bytes, e) ↦
      rw (e, packets_of_chunks)
        (legacy-IsPlain c.chunk_id (suc (length bytes)) bytes 0, chunks-IsPlain files chunks)
]

-- The files of the chunks are there.
abbrev pub AreThere : Files → List ChunkInfo → Type 0
AreThere files = All (λ (c : ChunkInfo). (bytes : List ℕ) × (files c.path ≡ some bytes))

check_files_there :
    (files : Files) (chunks : List ChunkInfo) (sv : StreamValidation)
    → AreThere files chunks
    → check_files files chunks sv ≡ sv
unfolding check_files
check_files_there files [] sv h = refl
check_files_there files (c ∷ chunks) sv ((bytes, e), h) =
    rw (e, check_files) (check_files_there files chunks sv h)

check_seq_gaps-counts :
    (id : StreamId) (l : List (ℕ × ℤ)) (sv : StreamValidation)
    → counts (check_seq_gaps id l sv) ≡ counts sv
unfolding check_seq_gaps
check_seq_gaps-counts id [] sv = refl
check_seq_gaps-counts id (a ∷ []) sv = refl
check_seq_gaps-counts id (a ∷ b ∷ rest) sv =
    check_seq_gaps-counts id (b ∷ rest) (check_seq_gap id a b sv) ∙ check_seq_gap-counts id a b sv

compare_with_manifest-counts :
    (m : Manifest) (sv : StreamValidation) → counts (compare_with_manifest m sv) ≡ counts sv
unfolding compare_with_manifest
compare_with_manifest-counts m sv =
    if_both (λ x. counts x ≡ counts sv)
      (ltb 0 m.packet_count && ltb sv.packets_valid m.packet_count) _ _ refl refl

compare_with_manifest_lost :
    (m : Manifest) (x y : StreamValidation)
    → x.packets_valid ≡ y.packets_valid
    → x.packets_lost ≡ y.packets_lost
    → (compare_with_manifest m x).packets_lost ≡ (compare_with_manifest m y).packets_lost
unfolding compare_with_manifest
compare_with_manifest_lost m x y e k = ground (arith, e, k)

module _ (cfg : ValidatorConfig) (files : Files) (m : Manifest) where
  abbrev pub chunks : List (List RawPacket)
  chunks = packets_of_chunks files (format_of files m) m.chunks

  validate_ego-visit :
      AreThere files m.chunks
      → validate_ego cfg files m ≡ finish_ego m (visit (ego_handler cfg) chunks (some start_ego))
  unfolding validate_ego scan
  validate_ego-visit there =
      rw
        (
          check_files_there files m.chunks no_validation there,
          scan_chunks-visit (ego_handler cfg) files (format_of files m) m.chunks (some start_ego),
        )
        refl

  -- The scan starts with files that are missing exactly when there are no chunks.
  pub scan_ego-visit :
      (b : Bool) × (scan_ego cfg files m
        ≡ some (visit (ego_feeder cfg) chunks (some (new_accumulator b))))
      × ((b ≡ false) ↔ (m.chunks ≡ []))
  unfolding scan_ego scan
  scan_ego-visit = go m.chunks
    where
      go :
          (l : List ChunkInfo)
          → (b : Bool) × ((elim l [
            | [] ↦ scan files m (ego_feeder cfg) (some (new_accumulator false))
            | c ∷ cs ↦ scan files m (ego_feeder cfg) (some (new_accumulator true))
          ])
              ≡ some (visit (ego_feeder cfg) chunks (some (new_accumulator b))))
            × ((b ≡ false) ↔ (l ≡ []))
      go [] = (
        false,
        scan_chunks-visit (ego_feeder cfg) files (format_of files m) m.chunks _,
        (λ h. refl, λ h. refl),
      )
      go (c ∷ cs) = (
        true,
        scan_chunks-visit (ego_feeder cfg) files (format_of files m) m.chunks _,
        (λ h. absurd (cc h), λ h. absurd (cc h)),
      )

  -- The two outcomes: both crash, or the counts are the same, and so are the losses after the comparison with
  -- the manifest. The validator counts the packets that fail at their checksum, the pipeline all that fail.
  abbrev pub SameOutcome : Option StreamValidation → Option (Option ScanAccumulator) → Type 0
  SameOutcome validated scanned =
      ((validated ≡ none) × (scanned ≡ some none))
      ⊎ ((sv : StreamValidation) × (a : ScanAccumulator) × (validated ≡ some sv)
          × (scanned ≡ some (some a))
          × (counts a.sv ≡ counts sv)
          × ((compare_with_manifest m a.sv).packets_lost ≡ sv.packets_lost)
          × (sv.packets_crc_failed % 2 ^ 64 ≡ checksum_failures (all_packets chunks) % 2 ^ 64)
          × (a.sv.packets_crc_failed % 2 ^ 64 ≡ refusals (all_packets chunks) % 2 ^ 64))

  finish-SameOutcome :
      (o : Option EgoScan) (o' : Option ScanAccumulator)
      → Alike Agrees o o'
      → IfGives (Notes (all_packets chunks)) o
      → IfGives (CountsRefused (all_packets chunks)) o'
      → SameOutcome (finish_ego m o) (some o')
  unfolding finish_ego
  finish-SameOutcome none none h notes refused = inl (refl, refl)
  finish-SameOutcome none (some a) h notes refused = absurd h
  finish-SameOutcome (some s) none h notes refused = absurd h
  finish-SameOutcome (some s) (some a) (seen, near, last) notes refused =
      let x = check_seq_gaps StreamId.ego s.seq_ts_list s.sv in
      let (e, k) = Close-same near in
      let same : counts a.sv ≡ counts x =
        sym (check_seq_gaps-counts StreamId.ego s.seq_ts_list s.sv ∙ e) in
      inr (
        compare_with_manifest m x,
        a,
        refl,
        refl,
        same ∙ sym (compare_with_manifest-counts m x),
        compare_with_manifest_lost m a.sv x (ap (λ (c : StreamValidation). c.packets_valid) same) (
            k
            ∙ ap (λ l. lost_over l s.sv.packets_lost) (sym (Close-seen near))
            ∙ sym (check_seq_gaps_lost StreamId.ego s.seq_ts_list s.sv)),
        omega (arith, finish-crc m s.seq_ts_list s.sv, notes.crc),
        refused,
      )

  -- On a session of the older format whose files are all there, the single scan of the pipeline and
  -- `validate_ego` both crash on a sample rate of zero, or neither does. Then they give the same
  -- numbers of packets, of valid packets, of violations of the times and their order, and of gaps of the audio
  -- and the IMU, and the same first and last time. The packets lost are the same once the pipeline's
  -- are compared with the manifest, which the pipeline leaves out. They differ in `packets_crc_failed`:
  -- modulo 2 ^ 64, the validator counts the packets that fail at their checksum, and the pipeline all
  -- that fail.
  pub scan_ego_agrees :
      format_of files m ≡ legacy
      → AreThere files m.chunks
      → SameOutcome (validate_ego cfg files m) (scan_ego cfg files m)
  unfolding stamps refusals checksum_failures
  scan_ego_agrees format there =
      let (b, scanned, empty) = scan_ego-visit in
      let plain : All (All IsPlain) chunks =
        subst (λ f. All (All IsPlain) (packets_of_chunks files f m.chunks)) (sym format)
          (chunks-IsPlain files m.chunks) in
      let start : Agrees start_ego (new_accumulator b) = (
        [],
        close [] true (pos 0) (pos 0) (pos 0) 0 0 no_validation _ refl refl,
        inl (refl, refl),
      ) in
      subst (λ v. SameOutcome v (scan_ego cfg files m)) (sym (validate_ego-visit there))
        (subst (λ r. SameOutcome (finish_ego m (visit (ego_handler cfg) chunks (some start_ego))) r)
          (sym scanned)
          (finish-SameOutcome _ _
            (visit-Alike cfg chunks (some start_ego) (some (new_accumulator b)) plain start)
            (visit-history Notes IsPlain (ego_handler cfg)
              (λ h o p plain_packet k. ego_handler-Notes cfg h o p k) [] chunks (some start_ego)
              plain (record { listed = refl; lost = refl; crc = refl }))
            (visit-history CountsRefused IsPlain (ego_feeder cfg) (ego_feeder-CountsRefused cfg) []
              chunks (some (new_accumulator b)) plain refl)))
