-- ===== src/Pipeline/Agreement.antt =====
-- A packet that is not a contract frame: the accumulator does with it what the validator does.
use local_pc.Common.{
  Bool, List, Option, [], ap, false, if◌then◌else◌, inc64, inr, none, pos, refl, some, subst, sym,
  ℕ, ℤ, ◌++◌, ◌∙◌, ◌∷◌, ◌≡◌,
}
use local_pc.Parse.Binary.{
  ParseStatus, bad_magic, bad_version, crc_fail, ok, size_exceeded, truncated, validate,
}
use local_pc.Validate.Types.{
  StreamId, StreamValidation, ValidatorConfig, error, file_truncated, gap,
}
use local_pc.Pipeline.Feed.{
  ScanAccumulator, contract_ok, feed, feed_audio, feed_imu, feed_seq, feed_times, feed_valid,
  packet_ok, status_ok,
}
use local_pc.Pipeline.Near.{
  close, Agrees, Alike, Blind-Close, Blind-compose, Close, Close-seen, KnowsLast, check_audio-Close,
  check_imu-Close, feed_seq-counts, seq-Close,
}
use local_pc.Pipeline.Losses.{lost_over, lost_over_inc}
use local_pc.Pipeline.Counts.{
  check_jump-Blind, check_monotonic-Blind, check_zero-Blind, counts, extend_range-Blind,
}
use local_pc.Load.Packets.{RawPacket, to_int64}
use local_pc.Validate.Streams.{
  EgoScan, check_audio, check_ego_packet, check_imu, check_times, check_valid, note_invalid,
  with_gap,
}

-- The times, and the sequence number.
times-Close :
    (cfg : ValidatorConfig) (n : ℕ) (ts : ℤ) (seen : List (ℕ × ℤ)) (s : EgoScan)
    (a : ScanAccumulator)
    → Close seen s a
    → KnowsLast seen a
    → Close
        (seen ++ (n, ts) ∷ [])
        (record s { sv = check_times cfg s ts s.sv; seq_ts_list = seen ++ (n, ts) ∷ [] })
        (record a { sv = feed_times cfg a n ts a.sv })
unfolding check_times feed_times
times-Close cfg n ts seen _ _ (close _ first prev audio imu nominal prev_seq sv sv' e k) last =
    let longer = seen ++ (n, ts) ∷ [] in
    let x : StreamValidation = record sv { packets_valid = inc64 sv.packets_valid } in
    let y : StreamValidation = record sv' { packets_valid = inc64 sv'.packets_valid } in
    let z = feed_seq first (prev_seq, prev) (n, ts) y in
    let a' : ScanAccumulator = record {
      sv = sv';
      first = first;
      prev_ts = prev;
      prev_audio_ts = audio;
      prev_imu_ts = imu;
      nominal_audio_period_ns = nominal;
      prev_seq = prev_seq;
    } in
    let same : counts x ≡ counts z =
      ap (λ (c : StreamValidation). record c { packets_valid = inc64 c.packets_valid }) e
      ∙ sym (feed_seq-counts first (prev_seq, prev) (n, ts) y) in
    let blind =
      Blind-compose _ _ _ _
        (Blind-compose _ _ _ _
          (Blind-compose _ _ _ _ (check_zero-Blind ts) (check_monotonic-Blind first prev ts))
          (check_jump-Blind cfg first prev ts))
        (extend_range-Blind first ts) in
    let (e', k') = Blind-Close _ _ longer x z blind same (seq-Close n ts seen a' x y last k) in
    close longer first prev audio imu nominal prev_seq _ _ e' k'

step-Close :
    (n : ℕ) (ts : ℤ) (seen : List (ℕ × ℤ)) (s : EgoScan) (a : ScanAccumulator)
    → Close seen s a
    → Close seen
        (record s { prev_ts = ts; first_pkt = false })
        (record a { prev_seq = n; prev_ts = ts; first = false })
step-Close n ts seen _ _ (close _ first prev audio imu nominal prev_seq sv sv' e k) =
    close seen false ts audio imu nominal n sv sv' e k

valid-Agrees :
    (cfg : ValidatorConfig) (raw : RawPacket) (s : EgoScan) (a : ScanAccumulator)
    → Agrees s a
    → Alike Agrees (check_valid cfg raw s) (feed_valid cfg raw a)
unfolding check_valid feed_valid
valid-Agrees cfg raw s a (seen, near, last) =
    finish (check_audio cfg raw ts (timed s.seq_ts_list)) _ (
      subst
        (λ l. Alike (Close longer) (check_audio cfg raw ts (timed l)) (feed_audio cfg raw ts fed))
        (sym (Close-seen near))
        (check_audio-Close cfg raw ts longer (timed seen) fed
          (times-Close cfg raw.header.seq ts seen s a near last)))
  where
    ts : ℤ
    ts = to_int64 raw.header.ts_ns

    longer : List (ℕ × ℤ)
    longer = seen ++ (raw.header.seq, ts) ∷ []

    timed : List (ℕ × ℤ) → EgoScan
    timed l = record s {
      sv = check_times cfg s ts s.sv;
      seq_ts_list = l ++ (raw.header.seq, ts) ∷ [];
    }

    fed : ScanAccumulator
    fed = record a { sv = feed_times cfg a raw.header.seq ts a.sv }

    finish :
        (o : Option EgoScan) (o' : Option ScanAccumulator)
        → Alike (Close longer) o o'
        → Alike Agrees
            (elim o [
              | none ↦ none
              | some heard ↦
                  some (record (check_imu cfg raw ts heard) { prev_ts = ts; first_pkt = false })
            ])
            (elim o' [
              | none ↦ none
              | some heard ↦ some (record (feed_imu cfg raw ts heard) {
                prev_seq = raw.header.seq;
                prev_ts = ts;
                first = false;
              })
            ])
    finish none none h = tt
    finish none (some b) h = absurd h
    finish (some t) none h = absurd h
    finish (some t) (some b) h = (
      longer,
      step-Close raw.header.seq ts longer (check_imu cfg raw ts t) (feed_imu cfg raw ts b)
          (check_imu-Close cfg raw ts longer t b h),
      inr (refl, (seen, refl)),
    )

-- A packet that fails its checks.
invalid-Close :
    (seen : List (ℕ × ℤ)) (s : EgoScan) (a : ScanAccumulator) (sv sv' : StreamValidation)
    → Close seen s a
    → counts sv ≡ counts sv'
    → sv'.packets_lost ≡ lost_over seen sv.packets_lost
    → Close seen (record s { sv = sv }) (record a { sv = sv' })
invalid-Close seen _ _ sv sv' (close _ first prev audio imu nominal prev_seq _ _ _ _) e k =
    close seen first prev audio imu nominal prev_seq sv sv' e k

pub Close-same :
    {seen : List (ℕ × ℤ)} {s : EgoScan} {a : ScanAccumulator}
    → Close seen s a
    → (counts s.sv ≡ counts a.sv) × (a.sv.packets_lost ≡ lost_over seen s.sv.packets_lost)
Close-same (close seen first prev audio imu nominal prev_seq sv sv' e k) = (e, k)

pub packet_ok_plain :
    (raw : RawPacket) → raw.is_contract ≡ false → packet_ok raw ≡ status_ok (validate raw).status
unfolding packet_ok
packet_ok_plain raw plain =
    ap (λ (b : Bool). if b then contract_ok raw else status_ok (validate raw).status) plain

pub packet-Agrees :
    (cfg : ValidatorConfig) (raw : RawPacket) (s : EgoScan) (a : ScanAccumulator)
    → raw.is_contract ≡ false
    → Agrees s a
    → Alike Agrees (check_ego_packet cfg s raw) (feed cfg a raw (packet_ok raw))
unfolding check_ego_packet feed status_ok note_invalid
packet-Agrees cfg raw s a plain (seen, near, last) =
    subst (λ b. Alike Agrees (check_ego_packet cfg s raw) (feed cfg a raw b))
      (sym (packet_ok_plain raw plain)) (go (validate raw).status)
  where
    x : StreamValidation
    x = record s.sv { packets_total = inc64 s.sv.packets_total }

    y : StreamValidation
    y = record a.sv { packets_total = inc64 a.sv.packets_total }

    y' : StreamValidation
    y' = record y {
      packets_crc_failed = inc64 y.packets_crc_failed;
      packets_lost = inc64 y.packets_lost;
    }

    same : counts x ≡ counts y
    same =
        ap (λ (c : StreamValidation). record c { packets_total = inc64 c.packets_total })
          (Close-same near).0

    bad :
        (z : StreamValidation)
        → counts z ≡ counts x
        → z.packets_lost ≡ inc64 s.sv.packets_lost
        → Agrees (record s { sv = z }) (record a { sv = y' })
    bad z e k = (
      seen,
      invalid-Close seen s a z y' near (e ∙ same) (
          ap inc64 (Close-same near).1
          ∙ sym (lost_over_inc seen s.sv.packets_lost)
          ∙ ap (lost_over seen) (sym k)),
      last,
    )

    go :
        (status : ParseStatus)
        → Alike Agrees
            (elim status [
              | ok ↦ check_valid cfg raw (record s { sv = x })
              | status ↦ some (record s {
                sv =
                    with_gap
                      (note_invalid status x)
                      (gap (to_int64 raw.header.ts_ns) StreamId.ego file_truncated error (pos 0));
              })
            ])
            (feed cfg a raw (status_ok status))
    go ok =
        valid-Agrees cfg raw (record s { sv = x }) (record a { sv = y })
          (seen, invalid-Close seen s a x y near same (Close-same near).1, last)
    go bad_magic = bad _ refl refl
    go bad_version = bad _ refl refl
    go truncated = bad _ refl refl
    go size_exceeded = bad _ refl refl
    go crc_fail = bad _ refl refl
