-- ===== src/Pipeline/Numbers.antt =====
-- What the checks of a packet make of the numbers of packets.
use local_pc.Common.{Bool-cases, arith, if◌then◌else◌, inl, inr, ◌≤◌}
use local_pc.Common.{
  Bool, Option, false, if_both, inc32, inc64, is_zero, leb, length, ltb, ltb_ℤ, none, not, refl,
  some, sub_ℤ, subst, true, ℕ, ℤ, ◌&&◌, ◌==◌, ◌∙◌, ◌≡◌,
}
use local_pc.Pipeline.Feed.{
  ScanAccumulator, count_zero, feed, feed_audio, feed_imu, feed_seq, feed_times, feed_valid,
}
use local_pc.Load.Packets.{RawPacket, to_int64}
use local_pc.Validate.Types.{StreamValidation, ValidatorConfig}
use local_pc.Validate.Streams.{
  check_audio_gap, check_imu_gap, check_jump, check_monotonic, check_seq_gap, extend_range,
  ms_to_ns,
}
use local_pc.Wire.Structs.{field}

-- The numbers of packets: all, the valid ones, and those that failed; and whether the files are there.
abbrev pub Numbers : Type 0
Numbers = ℕ × ℕ × ℕ × Bool

abbrev pub numbers : StreamValidation → Numbers
numbers sv = (sv.packets_total, sv.packets_valid, sv.packets_crc_failed, sv.file_ok)

feed_seq-numbers :
    (first : Bool) (a b : ℕ × ℤ) (x : StreamValidation) → numbers (feed_seq first a b x) ≡ numbers x
unfolding feed_seq check_seq_gap
feed_seq-numbers true a b x = refl
feed_seq-numbers false (m, s) (n, r) x =
    if_both (λ y. numbers y ≡ numbers x) (ltb (inc32 m) n) _ _ refl refl

count_zero-numbers : (ts : ℤ) (x : StreamValidation) → numbers (count_zero ts x) ≡ numbers x
unfolding count_zero
count_zero-numbers ts x = if_both (λ y. numbers y ≡ numbers x) (is_zero ts) _ _ refl refl

check_monotonic-numbers :
    (first : Bool) (prev ts : ℤ) (x : StreamValidation)
    → numbers (check_monotonic first prev ts x) ≡ numbers x
unfolding check_monotonic
check_monotonic-numbers first prev ts x =
    if_both (λ y. numbers y ≡ numbers x) (not first && ltb_ℤ ts prev) _ _ refl refl

check_jump-numbers :
    (cfg : ValidatorConfig) (first : Bool) (prev ts : ℤ) (x : StreamValidation)
    → numbers (check_jump cfg first prev ts x) ≡ numbers x
unfolding check_jump
check_jump-numbers cfg first prev ts x =
    if_both (λ y. numbers y ≡ numbers x)
      (not first && ltb_ℤ (ms_to_ns cfg.max_timestamp_jump_ms) (sub_ℤ ts prev)) _ _ refl refl

check_audio_gap-numbers :
    (cfg : ValidatorConfig) (nominal : ℕ) (prev ts : ℤ) (x : StreamValidation)
    → numbers (check_audio_gap cfg nominal prev ts x) ≡ numbers x
unfolding check_audio_gap
check_audio_gap-numbers cfg nominal prev ts x =
    if_both (λ y. numbers y ≡ numbers x)
      (not (is_zero prev) && ltb 0 nominal && ltb_ℤ (cfg.audio_threshold nominal) (sub_ℤ ts prev)) _
      _ refl refl

check_imu_gap-numbers :
    (cfg : ValidatorConfig) (prev ts : ℤ) (x : StreamValidation)
    → numbers (check_imu_gap cfg prev ts x) ≡ numbers x
unfolding check_imu_gap
check_imu_gap-numbers cfg prev ts x =
    if_both (λ y. numbers y ≡ numbers x)
      (not (is_zero prev) && ltb_ℤ (ms_to_ns cfg.telemetry_gap_ms) (sub_ℤ ts prev)) _ _ refl refl

feed_times-numbers :
    (cfg : ValidatorConfig) (a : ScanAccumulator) (n : ℕ) (ts : ℤ) (x : StreamValidation)
    → numbers (feed_times cfg a n ts x)
      ≡ (x.packets_total, inc64 x.packets_valid, x.packets_crc_failed, x.file_ok)
unfolding feed_times extend_range
feed_times-numbers cfg a n ts x =
    let counted : StreamValidation = record x { packets_valid = inc64 x.packets_valid } in
    let ordered = feed_seq a.first (a.prev_seq, a.prev_ts) (n, ts) counted in
    let timed = count_zero ts ordered in
    check_jump-numbers cfg a.first a.prev_ts ts (check_monotonic a.first a.prev_ts ts timed)
    ∙ check_monotonic-numbers a.first a.prev_ts ts timed
    ∙ count_zero-numbers ts ordered
    ∙ feed_seq-numbers a.first (a.prev_seq, a.prev_ts) (n, ts) counted

-- The numbers of a result; a crash has to be accounted for by `C`.
abbrev pub Numbered : Type 0 → Numbers → Option ScanAccumulator → Type 0
Numbered C k none = C
Numbered C k (some a) = numbers a.sv ≡ k

-- An audio block that says that its sample rate is zero gives a `C`.
abbrev pub Excused : Type 0 → RawPacket → Type 0
Excused C raw = raw.header.type ≡ 1 → 10 ≤ length raw.payload → field 4 2 raw.payload ≡ 0 → C

feed_audio-Numbered :
    (C : Type 0) (cfg : ValidatorConfig) (raw : RawPacket) (ts : ℤ) (a : ScanAccumulator)
    → Excused C raw
    → Numbered C (numbers a.sv) (feed_audio cfg raw ts a)
unfolding feed_audio
feed_audio-Numbered C cfg raw ts a excuse =
    elim (Bool-cases (not (raw.header.type == 1 && leb 10 (length raw.payload)))) [
      | inl other ↦ rw other refl
      | inr is_audio ↦ elim (Bool-cases (field 4 2 raw.payload == 0)) [
        | inl no_rate ↦ rw (is_audio, no_rate) (excuse (ground arith) (ground arith) (ground arith))
        | inr rate ↦ rw (is_audio, rate) (check_audio_gap-numbers cfg _ a.prev_audio_ts ts a.sv)
      ]
    ]

feed_imu-numbers :
    (cfg : ValidatorConfig) (raw : RawPacket) (ts : ℤ) (a : ScanAccumulator)
    → numbers (feed_imu cfg raw ts a).sv ≡ numbers a.sv
unfolding feed_imu
feed_imu-numbers cfg raw ts a =
    if_both (λ (b : ScanAccumulator). numbers b.sv ≡ numbers a.sv) (raw.header.type == 3) _ _
      (check_imu_gap-numbers cfg a.prev_imu_ts ts a.sv) refl

feed_valid-Numbered :
    (C : Type 0) (cfg : ValidatorConfig) (a : ScanAccumulator) (raw : RawPacket)
    → Excused C raw
    → Numbered C
        (a.sv.packets_total, inc64 a.sv.packets_valid, a.sv.packets_crc_failed, a.sv.file_ok)
        (feed_valid cfg raw a)
unfolding feed_valid
feed_valid-Numbered C cfg a raw excuse =
    finish (a.sv.packets_total, inc64 a.sv.packets_valid, a.sv.packets_crc_failed, a.sv.file_ok)
      (feed_audio cfg raw ts timed)
      (subst (λ k. Numbered C k (feed_audio cfg raw ts timed))
        (feed_times-numbers cfg a raw.header.seq ts a.sv)
        (feed_audio-Numbered C cfg raw ts timed excuse))
  where
    ts : ℤ
    ts = to_int64 raw.header.ts_ns

    timed : ScanAccumulator
    timed = record a { sv = feed_times cfg a raw.header.seq ts a.sv }

    finish :
        (k : Numbers) (o : Option ScanAccumulator)
        → Numbered C k o
        → Numbered C k (elim o [
          | none ↦ none
          | some heard ↦ some (record (feed_imu cfg raw ts heard) {
            prev_seq = raw.header.seq;
            prev_ts = ts;
            first = false;
          })
        ])
    finish k none h = h
    finish k (some heard) h = feed_imu-numbers cfg raw ts heard ∙ h

-- A packet that passes its checks is counted as valid, one that fails them as failed.
abbrev pub fed : Bool → StreamValidation → Numbers
fed crc_ok sv =
    if crc_ok
    then (inc64 sv.packets_total, inc64 sv.packets_valid, sv.packets_crc_failed, sv.file_ok)
    else (inc64 sv.packets_total, sv.packets_valid, inc64 sv.packets_crc_failed, sv.file_ok)

pub feed-Numbered :
    (C : Type 0) (cfg : ValidatorConfig) (a : ScanAccumulator) (raw : RawPacket) (crc_ok : Bool)
    → Excused C raw
    → Numbered C (fed crc_ok a.sv) (feed cfg a raw crc_ok)
unfolding feed
feed-Numbered C cfg a raw false excuse = refl
feed-Numbered C cfg a raw true excuse =
    feed_valid-Numbered C cfg
      (record a { sv = record a.sv { packets_total = inc64 a.sv.packets_total } }) raw excuse
