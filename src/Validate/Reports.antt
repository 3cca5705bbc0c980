-- ===== src/Validate/Reports.antt =====
-- The validation of the ego stream, whole.
use local_pc.Load.Visits.{visit-keeps, scan_visits, packets_of_chunks}
use local_pc.Validate.Seen.{checksum_failures, Notes, ego_handler-Notes, refusals, stamps}
use local_pc.Common.{
  Bool-cases, if◌then◌else◌, inl, inr, subst, All, List, Option, [], arith, if_both, inc32, length,
  length-append, ltb, none, refl, some, suc, ℕ, ℤ, ◌%◌, ◌&&◌, ◌++◌, ◌+◌, ◌^◌, ◌∷◌, ◌≡◌,
}
use local_pc.Load.Packets.{RawPacket, ChunkInfo, Files, Manifest}
use local_pc.Load.History.{IfGives, all_packets, visit-history}
use local_pc.Validate.Types.{
  ego, GapEvent, StreamId, StreamValidation, ValidatorConfig, no_validation,
}
use local_pc.Validate.Sound.{Gives, RateFine, ScanIsSound, Within, ego_handler-IsSound}
use local_pc.Load.Scan.{format_of}
use local_pc.Validate.Streams.{
  EgoScan, check_files, check_seq_gap, check_seq_gaps, compare_with_manifest, ego_handler,
  finish_ego, start_ego, validate_ego,
}

-- A report of the packets in `seen`, of `invalid` other ones and of `gaps` gaps in the sequence numbers.
pub record IsReport (seen : List (ℕ × ℤ)) (invalid gaps : ℕ) (sv : StreamValidation) : Type 0 where
  pub total : sv.packets_total ≡ (sv.packets_valid + invalid) % 2 ^ 64
  pub valid : sv.packets_valid ≡ length seen % 2 ^ 64
  pub within : All (Within sv) seen
  pub events :
      length sv.gap_events % 2 ^ 64
      ≡ (invalid + gaps + sv.timestamp_violations + sv.monotonic_violations + sv.audio_gap_count
          + sv.telemetry_gap_count)
        % 2 ^ 64

-- A number is past the one that follows the number before it.
abbrev pub gap_at : ℕ × ℤ → ℕ × ℤ → ℕ
gap_at (p, _) (q, _) = if ltb (inc32 p) q then 1 else 0

-- How often this is the case between neighbours.
unfoldable pub gaps_in : List (ℕ × ℤ) → ℕ
gaps_in [] = 0
gaps_in (a ∷ []) = 0
gaps_in (a ∷ b ∷ rest) = gap_at a b + gaps_in (b ∷ rest)

length-snoc : (l : List GapEvent) (g : GapEvent) → length (l ++ g ∷ []) ≡ suc (length l)
length-snoc l g = omega (arith, length-append l (g ∷ []))

module _ (seen : List (ℕ × ℤ)) (invalid : ℕ) where
  check_seq_gap-IsReport :
      (gaps : ℕ) (id : StreamId) (a b : ℕ × ℤ) (sv : StreamValidation)
      → IsReport seen invalid gaps sv
      → IsReport seen invalid (gaps + gap_at a b) (check_seq_gap id a b sv)
  unfolding check_seq_gap
  check_seq_gap-IsReport gaps id (p, u) (q, t) sv h = elim (Bool-cases (ltb (inc32 p) q)) [
    | inl e ↦ rw e (record {
      total = h.total;
      valid = h.valid;
      within = h.within;
      events = omega (arith, h.events, length-snoc sv.gap_events _);
    })
    | inr e ↦ rw e (record {
      total = h.total;
      valid = h.valid;
      within = h.within;
      events = omega (arith, h.events);
    })
  ]

  check_seq_gaps-IsReport :
      (gaps : ℕ) (id : StreamId) (l : List (ℕ × ℤ)) (sv : StreamValidation)
      → IsReport seen invalid gaps sv
      → IsReport seen invalid (gaps + gaps_in l) (check_seq_gaps id l sv)
  unfolding check_seq_gaps gaps_in
  check_seq_gaps-IsReport gaps id [] sv h = subst (λ n. IsReport seen invalid n sv) (omega arith) h
  check_seq_gaps-IsReport gaps id (a ∷ []) sv h =
      subst (λ n. IsReport seen invalid n sv) (omega arith) h
  check_seq_gaps-IsReport gaps id (a ∷ b ∷ rest) sv h =
      let sv' = check_seq_gap id a b sv in
      subst (λ n. IsReport seen invalid n (check_seq_gaps id (b ∷ rest) sv')) (omega arith)
        (check_seq_gaps-IsReport (gaps + gap_at a b) id (b ∷ rest) sv'
          (check_seq_gap-IsReport gaps id a b sv h))

  compare_with_manifest-IsReport :
      (gaps : ℕ) (m : Manifest) (sv : StreamValidation)
      → IsReport seen invalid gaps sv
      → IsReport seen invalid gaps (compare_with_manifest m sv)
  unfolding compare_with_manifest
  compare_with_manifest-IsReport gaps m sv h =
      if_both (IsReport seen invalid gaps)
        (ltb 0 m.packet_count && ltb sv.packets_valid m.packet_count) _ _
        (record { total = h.total; valid = h.valid; within = h.within; events = h.events }) h

-- The report of the scan that has gone through the packets.
finish_ego-IsReport :
    (ps : List RawPacket) (m : Manifest) (o : Option EgoScan)
    → Gives ScanIsSound o
    → IfGives (Notes ps) o
    → Gives (IsReport (stamps ps) (refusals ps) (gaps_in (stamps ps))) (finish_ego m o)
unfolding finish_ego
finish_ego-IsReport ps m none h notes = absurd h
finish_ego-IsReport ps m (some s) h notes =
    subst
      (λ l.
        IsReport l (refusals ps) (gaps_in l)
          (compare_with_manifest m (check_seq_gaps ego s.seq_ts_list s.sv)))
      notes.listed
      (compare_with_manifest-IsReport s.seq_ts_list (refusals ps) (gaps_in s.seq_ts_list) m _ (
        subst (λ n. IsReport s.seq_ts_list (refusals ps) n (check_seq_gaps ego s.seq_ts_list s.sv))
          (omega arith)
          (check_seq_gaps-IsReport s.seq_ts_list (refusals ps) 0 ego s.seq_ts_list s.sv (record {
            total = omega (arith, h.accounted.total, notes.lost);
            valid = h.valid;
            within = h.within;
            events = omega (arith, h.accounted.events, notes.lost);
          }))))

Gives-some : {A : Type 0} (P : A → Type 0) (o : Option A) → Gives P o → (a : A) × (o ≡ some a) × P a
Gives-some P none h = absurd h
Gives-some P (some a) h = (a, refl, h)

-- The chunks are all there.
abbrev pub AllThere : Files → List ChunkInfo → Type 0
AllThere files chunks =
    All (λ (c : ChunkInfo). (bytes : List ℕ) × (files c.path ≡ some bytes)) chunks

check_files_there :
    (files : Files) (chunks : List ChunkInfo) (sv : StreamValidation)
    → AllThere files chunks
    → check_files files chunks sv ≡ sv
unfolding check_files
check_files_there files [] sv h = refl
check_files_there files (c ∷ chunks) sv ((bytes, e), h) =
    rw (e, check_files) (check_files_there files chunks sv h)

-- The packets that the files hold for the manifest, in order.
abbrev pub packets_for : Files → Manifest → List RawPacket
packets_for files m = all_packets (packets_of_chunks files (format_of files m) m.chunks)

-- If all chunks are there, and no packet is an audio block with a sample rate of zero, then the
-- validation of the ego stream has a result. It has counted the packets of the files that pass
-- `validate`, whose times lie between `t_first_ns` and `t_last_ns`, and together with those that do
-- not pass they are `packets_total`. There are as many events as packets that do not pass, neighbours
-- among the passing ones whose sequence numbers leave some out, timestamp and monotonic violations,
-- and audio and telemetry gaps together. All counts are modulo 2 ^ 64.
pub validate_ego-IsReport :
    (cfg : ValidatorConfig) (files : Files) (m : Manifest)
    → AllThere files m.chunks
    → All (All RateFine) (packets_of_chunks files (format_of files m) m.chunks)
    → (sv : StreamValidation) × (validate_ego cfg files m ≡ some sv)
      × IsReport
          (stamps (packets_for files m))
          (refusals (packets_for files m))
          (gaps_in (stamps (packets_for files m)))
          sv
unfolding validate_ego stamps refusals checksum_failures
validate_ego-IsReport cfg files m there fine =
    rw
      (
        check_files_there files m.chunks no_validation there,
        scan_visits files m (ego_handler cfg) (some start_ego),
      )
      (Gives-some _ _ (
        finish_ego-IsReport (packets_for files m) m _
          (visit-keeps (Gives ScanIsSound) RateFine (ego_handler cfg) (ego_handler-IsSound cfg)
            (packets_of_chunks files (format_of files m) m.chunks) (some start_ego) fine start)
          (visit-history Notes RateFine (ego_handler cfg)
            (λ h o p fine_packet k. ego_handler-Notes cfg h o p k) []
            (packets_of_chunks files (format_of files m) m.chunks) (some start_ego) fine
            start_notes)))
  where
    start : ScanIsSound start_ego
    start = record {
      accounted = record { total = refl; events = refl };
      valid = refl;
      within = tt;
      fresh = λ e. refl;
    }

    start_notes : Notes [] start_ego
    start_notes = record { listed = refl; lost = refl; crc = refl }
