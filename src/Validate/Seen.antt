-- ===== src/Validate/Seen.antt =====
-- The packets that the scan of the ego stream has gone through, and what it notes of them.
use local_pc.Load.History.{IfGives}
use local_pc.Common.{
  inl, inr, ◌⊎◌, List, Option, [], ap, arith, false, if_both, leb, length, none, not, refl, some,
  sym, true, ℕ, ℤ, ◌%◌, ◌&&◌, ◌++◌, ◌==◌, ◌^◌, ◌∙◌, ◌∷◌, ◌≡◌, ◌+◌,
}
use local_pc.Wire.Structs.{field}
use local_pc.Parse.Binary.{ParseStatus, crc_fail, validate, ok}
use local_pc.Load.Packets.{RawPacket, to_int64}
use local_pc.Validate.Types.{StreamValidation, ValidatorConfig}
use local_pc.Validate.Streams.{
  EgoScan, check_audio, check_audio_gap, check_ego_packet, check_imu, check_imu_gap, check_jump,
  check_monotonic, check_times, check_valid, check_zero, ego_handler, extend_range, note_invalid,
}
use mathlib.Core.List.{append_assoc, append-nil}

-- The sequence number and the time of a packet that passes its checks.
unfoldable pub stamp : RawPacket → List (ℕ × ℤ)
stamp raw = elim (validate raw).status [
  | ok ↦ (raw.header.seq, to_int64 raw.header.ts_ns) ∷ []
  | bad ↦ []
]

unfoldable pub stamps : List RawPacket → List (ℕ × ℤ)
stamps [] = []
stamps (p ∷ ps) = stamp p ++ stamps ps

-- How many packets do not pass.
unfoldable pub refusal : RawPacket → ℕ
refusal raw = elim (validate raw).status [ ok ↦ 0 | bad ↦ 1 ]

unfoldable pub refusals : List RawPacket → ℕ
refusals [] = 0
refusals (p ∷ ps) = refusal p + refusals ps

-- How many of those fail at their checksum.
unfoldable pub checksum_failure : RawPacket → ℕ
checksum_failure raw = elim (validate raw).status [ crc_fail ↦ 1 | other ↦ 0 ]

unfoldable pub checksum_failures : List RawPacket → ℕ
checksum_failures [] = 0
checksum_failures (p ∷ ps) = checksum_failure p + checksum_failures ps

stamps-snoc : (h : List RawPacket) (p : RawPacket) → stamps (h ++ p ∷ []) ≡ stamps h ++ stamp p
unfolding stamps
stamps-snoc [] p = append-nil (stamp p)
stamps-snoc (q ∷ h) p =
    ap (λ t. stamp q ++ t) (stamps-snoc h p) ∙ sym (append_assoc (stamp q) (stamps h) (stamp p))

pub refusals-snoc :
    (h : List RawPacket) (p : RawPacket) → refusals (h ++ p ∷ []) ≡ refusals h + refusal p
unfolding refusals
refusals-snoc [] p = omega arith
refusals-snoc (q ∷ h) p = omega (arith, refusals-snoc h p)

checksum_failures-snoc :
    (h : List RawPacket) (p : RawPacket)
    → checksum_failures (h ++ p ∷ []) ≡ checksum_failures h + checksum_failure p
unfolding checksum_failures
checksum_failures-snoc [] p = omega arith
checksum_failures-snoc (q ∷ h) p = omega (arith, checksum_failures-snoc h p)

-- What the scan notes of the packets in `h`: the stamps, and the counts of those that do not pass.
pub record Notes (h : List RawPacket) (s : EgoScan) : Type 0 where
  pub listed : s.seq_ts_list ≡ stamps h
  pub lost : s.sv.packets_lost % 2 ^ 64 ≡ refusals h % 2 ^ 64
  pub crc : s.sv.packets_crc_failed % 2 ^ 64 ≡ checksum_failures h % 2 ^ 64

-- What a packet adds to the list and to the counts.
abbrev Adds : List (ℕ × ℤ) → ℕ → ℕ → EgoScan → EgoScan → Type 0
Adds list n c s s' =
    (s'.seq_ts_list ≡ s.seq_ts_list ++ list)
    × (s'.sv.packets_lost % 2 ^ 64 ≡ (s.sv.packets_lost + n) % 2 ^ 64)
    × (s'.sv.packets_crc_failed % 2 ^ 64 ≡ (s.sv.packets_crc_failed + c) % 2 ^ 64)

-- The two counts are left as they are.
abbrev pub Leaves : StreamValidation → StreamValidation → Type 0
Leaves sv sv' =
    (sv'.packets_lost ≡ sv.packets_lost) × (sv'.packets_crc_failed ≡ sv.packets_crc_failed)

-- The list is, too.
abbrev Same : EgoScan → EgoScan → Type 0
Same s s' = (s'.seq_ts_list ≡ s.seq_ts_list) × Leaves s.sv s'.sv

check_times-Leaves :
    (cfg : ValidatorConfig) (s : EgoScan) (ts : ℤ) (sv : StreamValidation)
    → Leaves sv (check_times cfg s ts sv)
unfolding check_times check_zero check_monotonic check_jump extend_range
check_times-Leaves cfg s ts sv = (ground arith, ground arith)

pub check_audio_gap-Leaves :
    (cfg : ValidatorConfig) (n : ℕ) (prev ts : ℤ) (sv : StreamValidation)
    → Leaves sv (check_audio_gap cfg n prev ts sv)
unfolding check_audio_gap
check_audio_gap-Leaves cfg n prev ts sv = (ground arith, ground arith)

check_audio-Same :
    (cfg : ValidatorConfig) (raw : RawPacket) (ts : ℤ) (s : EgoScan)
    → IfGives (Same s) (check_audio cfg raw ts s)
unfolding check_audio
check_audio-Same cfg raw ts s =
    if_both (IfGives (Same s)) (not (raw.header.type == 1 && leb 10 (length raw.payload))) _ _
      (refl, (refl, refl))
      (if_both (IfGives (Same s)) (field 4 2 raw.payload == 0) _ _ tt
        (refl, check_audio_gap-Leaves cfg _ s.prev_audio_ts ts s.sv))

check_imu-Same :
    (cfg : ValidatorConfig) (raw : RawPacket) (ts : ℤ) (s : EgoScan)
    → Same s (check_imu cfg raw ts s)
unfolding check_imu check_imu_gap
check_imu-Same cfg raw ts s = (ground arith, (ground arith, ground arith))

check_valid-Notes :
    (cfg : ValidatorConfig) (raw : RawPacket) (s : EgoScan)
    → IfGives
        (Adds ((raw.header.seq, to_int64 raw.header.ts_ns) ∷ []) 0 0 s)
        (check_valid cfg raw s)
unfolding check_valid
check_valid-Notes cfg raw s =
    finish (check_audio cfg raw ts timed) (check_audio-Same cfg raw ts timed)
  where
    ts : ℤ
    ts = to_int64 raw.header.ts_ns

    timed : EgoScan
    timed = record s {
      sv = check_times cfg s ts s.sv;
      seq_ts_list = s.seq_ts_list ++ (raw.header.seq, ts) ∷ [];
    }

    finish :
        (o : Option EgoScan)
        → IfGives (Same timed) o
        → IfGives (Adds ((raw.header.seq, ts) ∷ []) 0 0 s) (elim o [
          | none ↦ none
          | some heard ↦
              some (record (check_imu cfg raw ts heard) { prev_ts = ts; first_pkt = false })
        ])
    finish none h = tt
    finish (some heard) (list, (lost, crc)) =
        let (list', (lost', crc')) = check_imu-Same cfg raw ts heard in
        let (lost_before, crc_before) = check_times-Leaves cfg s ts s.sv in
        (
          list' ∙ list,
          omega (arith, lost', lost, lost_before),
          omega (arith, crc', crc, crc_before),
        )

-- A packet that fails adds to the counts.
check_status-Adds :
    (cfg : ValidatorConfig) (s : EgoScan) (raw : RawPacket) (status : ParseStatus)
    → (validate raw).status ≡ status
    → IfGives (Adds (stamp raw) (refusal raw) (checksum_failure raw) s) (check_ego_packet cfg s raw)
unfolding check_ego_packet stamp refusal checksum_failure note_invalid
check_status-Adds cfg s raw ok e =
    rw (e, check_ego_packet, stamp, refusal, checksum_failure) (check_valid-Notes cfg raw _)
check_status-Adds cfg s raw status e =
    rw (e, check_ego_packet, stamp, refusal, checksum_failure)
      (sym (append-nil s.seq_ts_list), omega arith, omega arith)

-- A packet more, and the scan goes on, or it has crashed.
pub ego_handler-Notes :
    (cfg : ValidatorConfig) (h : List RawPacket) (o : Option EgoScan) (raw : RawPacket)
    → IfGives (Notes h) o
    → (((ego_handler cfg o raw).1 ≡ true) ⊎ ((ego_handler cfg o raw).0 ≡ none))
      × IfGives (Notes (h ++ raw ∷ [])) (ego_handler cfg o raw).0
unfolding ego_handler
ego_handler-Notes cfg h none raw g = (inr refl, tt)
ego_handler-Notes cfg h (some s) raw notes =
    (inl refl, add (check_ego_packet cfg s raw) (check_status-Adds cfg s raw _ refl))
  where
    add :
        (o : Option EgoScan)
        → IfGives (Adds (stamp raw) (refusal raw) (checksum_failure raw) s) o
        → IfGives (Notes (h ++ raw ∷ [])) o
    add none a = tt
    add (some s') (list, lost, crc) = record {
      listed = list ∙ ap (λ l. l ++ stamp raw) notes.listed ∙ sym (stamps-snoc h raw);
      lost = omega (arith, lost, notes.lost, refusals-snoc h raw);
      crc = omega (arith, crc, notes.crc, checksum_failures-snoc h raw);
    }
