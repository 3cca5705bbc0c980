-- ===== src/Pipeline/Refused.antt =====
-- How the accumulator and the validator count the packets that fail their checks: the accumulator takes
-- each for one that fails at its checksum.
use local_pc.Common.{
  subst, sym, List, Option, [], arith, false, if_both, inc32, inl, inr, leb, length, ltb, none, not,
  refl, some, true, ℕ, ℤ, ◌%◌, ◌&&◌, ◌++◌, ◌+◌, ◌==◌, ◌^◌, ◌∙◌, ◌∷◌, ◌≡◌, ◌⊎◌,
}
use local_pc.Pipeline.Agreement.{packet_ok_plain}
use local_pc.Pipeline.Feed.{
  ScanAccumulator, count_zero, ego_feeder, feed, feed_audio, feed_imu, feed_seq, feed_times,
  feed_valid, packet_ok, status_ok,
}
use local_pc.Wire.Structs.{field}
use local_pc.Parse.Binary.{ParseStatus, validate, ok}
use local_pc.Load.History.{IfGives}
use local_pc.Load.Packets.{Manifest, RawPacket, to_int64}
use local_pc.Validate.Types.{StreamId, StreamValidation, ValidatorConfig}
use local_pc.Validate.Streams.{
  check_imu_gap, check_jump, check_monotonic, check_seq_gap, check_seq_gaps, compare_with_manifest,
  extend_range,
}
use local_pc.Validate.Seen.{refusals, refusal, refusals-snoc, check_audio_gap-Leaves}

-- The packets that fail are counted.
abbrev pub CountsRefused : List RawPacket → ScanAccumulator → Type 0
CountsRefused h a = a.sv.packets_crc_failed % 2 ^ 64 ≡ refusals h % 2 ^ 64

feed_times-crc :
    (cfg : ValidatorConfig) (a : ScanAccumulator) (n : ℕ) (ts : ℤ) (sv : StreamValidation)
    → (feed_times cfg a n ts sv).packets_crc_failed ≡ sv.packets_crc_failed
unfolding feed_times feed_seq count_zero check_monotonic check_jump extend_range check_seq_gap
feed_times-crc cfg a n ts sv = ground arith

-- The count of the checksums stays.
abbrev Keeps : StreamValidation → ScanAccumulator → Type 0
Keeps sv a = a.sv.packets_crc_failed ≡ sv.packets_crc_failed

feed_audio-Keeps :
    (cfg : ValidatorConfig) (raw : RawPacket) (ts : ℤ) (a : ScanAccumulator)
    → IfGives (Keeps a.sv) (feed_audio cfg raw ts a)
unfolding feed_audio
feed_audio-Keeps cfg raw ts a =
    if_both (IfGives (Keeps a.sv)) (not (raw.header.type == 1 && leb 10 (length raw.payload))) _ _
      refl
      (if_both (IfGives (Keeps a.sv)) (field 4 2 raw.payload == 0) _ _ tt
        (check_audio_gap-Leaves cfg _ a.prev_audio_ts ts a.sv).1)

feed_imu-Keeps :
    (cfg : ValidatorConfig) (raw : RawPacket) (ts : ℤ) (a : ScanAccumulator)
    → Keeps a.sv (feed_imu cfg raw ts a)
unfolding feed_imu check_imu_gap
feed_imu-Keeps cfg raw ts a = ground arith

feed_valid-Keeps :
    (cfg : ValidatorConfig) (raw : RawPacket) (a : ScanAccumulator)
    → IfGives (Keeps a.sv) (feed_valid cfg raw a)
unfolding feed_valid
feed_valid-Keeps cfg raw a =
    finish (feed_audio cfg raw ts timed) (feed_audio-Keeps cfg raw ts timed)
  where
    ts : ℤ
    ts = to_int64 raw.header.ts_ns

    timed : ScanAccumulator
    timed = record a { sv = feed_times cfg a raw.header.seq ts a.sv }

    finish :
        (o : Option ScanAccumulator)
        → IfGives (Keeps timed.sv) o
        → IfGives (Keeps a.sv) (elim o [
          | none ↦ none
          | some heard ↦ some (record (feed_imu cfg raw ts heard) {
            prev_seq = raw.header.seq;
            prev_ts = ts;
            first = false;
          })
        ])
    finish none h = tt
    finish (some heard) h =
        feed_imu-Keeps cfg raw ts heard ∙ h ∙ feed_times-crc cfg a raw.header.seq ts a.sv

-- A packet more is counted by so many.
abbrev Counted : ℕ → ScanAccumulator → ScanAccumulator → Type 0
Counted n a a' = a'.sv.packets_crc_failed % 2 ^ 64 ≡ (a.sv.packets_crc_failed + n) % 2 ^ 64

Keeps-Counted :
    (a : ScanAccumulator) (o : Option ScanAccumulator)
    → IfGives (Keeps a.sv) o
    → IfGives (Counted 0 a) o
Keeps-Counted a none h = tt
Keeps-Counted a (some a') h = omega (arith, h)

feed_status-Counted :
    (cfg : ValidatorConfig) (raw : RawPacket) (a : ScanAccumulator) (status : ParseStatus)
    → (validate raw).status ≡ status
    → IfGives (Counted (refusal raw) a) (feed cfg a raw (status_ok (validate raw).status))
unfolding feed status_ok refusal
feed_status-Counted cfg raw a ok e =
    rw (e, feed, refusal) (Keeps-Counted a (feed_valid cfg raw _) (feed_valid-Keeps cfg raw _))
feed_status-Counted cfg raw a status e = rw (e, feed, refusal) (omega arith)

-- A packet that is not a contract frame fails as `validate` says.
feed-Counted :
    (cfg : ValidatorConfig) (raw : RawPacket) (a : ScanAccumulator)
    → raw.is_contract ≡ false
    → IfGives (Counted (refusal raw) a) (feed cfg a raw (packet_ok raw))
feed-Counted cfg raw a plain =
    subst (λ b. IfGives (Counted (refusal raw) a) (feed cfg a raw b))
      (sym (packet_ok_plain raw plain)) (feed_status-Counted cfg raw a _ refl)

pub ego_feeder-CountsRefused :
    (cfg : ValidatorConfig) (h : List RawPacket) (o : Option ScanAccumulator) (raw : RawPacket)
    → raw.is_contract ≡ false
    → IfGives (CountsRefused h) o
    → (((ego_feeder cfg o raw).1 ≡ true) ⊎ ((ego_feeder cfg o raw).0 ≡ none))
      × IfGives (CountsRefused (h ++ raw ∷ [])) (ego_feeder cfg o raw).0
unfolding ego_feeder
ego_feeder-CountsRefused cfg h none raw plain g = (inr refl, tt)
ego_feeder-CountsRefused cfg h (some a) raw plain g =
    (inl refl, add (feed cfg a raw (packet_ok raw)) (feed-Counted cfg raw a plain))
  where
    add :
        (o : Option ScanAccumulator)
        → IfGives (Counted (refusal raw) a) o
        → IfGives (CountsRefused (h ++ raw ∷ [])) o
    add none k = tt
    add (some a') k = omega (arith, k, g, refusals-snoc h raw)

check_seq_gaps-crc :
    (l : List (ℕ × ℤ)) (sv : StreamValidation)
    → (check_seq_gaps StreamId.ego l sv).packets_crc_failed ≡ sv.packets_crc_failed
unfolding check_seq_gaps check_seq_gap
check_seq_gaps-crc [] sv = refl
check_seq_gaps-crc (a ∷ []) sv = refl
check_seq_gaps-crc (a ∷ b ∷ rest) sv =
    check_seq_gaps-crc (b ∷ rest) (check_seq_gap StreamId.ego a b sv)
    ∙ if_both (λ (y : StreamValidation). y.packets_crc_failed ≡ sv.packets_crc_failed)
        (ltb (inc32 a.0) b.0) _ _ refl refl

-- What comes behind the scans leaves the count alone.
pub finish-crc :
    (m : Manifest) (l : List (ℕ × ℤ)) (sv : StreamValidation)
    → (compare_with_manifest m (check_seq_gaps StreamId.ego l sv)).packets_crc_failed
      ≡ sv.packets_crc_failed
unfolding compare_with_manifest
finish-crc m l sv =
    let x = check_seq_gaps StreamId.ego l sv in
    if_both (λ (y : StreamValidation). y.packets_crc_failed ≡ sv.packets_crc_failed)
      (ltb 0 m.packet_count && ltb x.packets_valid m.packet_count) _ _ (check_seq_gaps-crc l sv)
      (check_seq_gaps-crc l sv)
