-- ===== src/Pipeline/Feed.antt =====
-- `ScanAccumulator`, and what the scan of `run_validate` feeds it. Its checks of times repeat those of
-- `LogValidator`, and are shared where they are the same. The configuration is always set. The streams that
-- the demuxers decode are left out; the accumulator does not read them.
use local_pc.Common.{
  Bool, Option, false, if◌then◌else◌, inc64, is_zero, leb, length, ltb, none, not, pos, some, true,
  ℕ, ℤ, ◌%◌, ◌&&◌, ◌*◌, ◌/◌, ◌==◌, ◌^◌, ◌||◌,
}
use local_pc.Parse.Binary.{ParseStatus, validate}
use local_pc.Frame.Header.{EgoFrameHeader, encode_header, frame_magic}
use local_pc.Load.Packets.{RawPacket, to_int64}
use local_pc.Crc.Offline.{crc32}
use local_pc.Validate.Types.{StreamId, StreamValidation, ValidatorConfig, no_validation}
use local_pc.Validate.Streams.{
  check_audio_gap, check_imu_gap, check_jump, check_monotonic, check_seq_gap, extend_range,
}
use local_pc.Wire.Structs.{field}

pub record ScanAccumulator : Type 0 where
  pub sv : StreamValidation
  pub first : Bool
  pub prev_ts : ℤ
  pub prev_audio_ts : ℤ
  pub prev_imu_ts : ℤ
  pub nominal_audio_period_ns : ℕ
  pub prev_seq : ℕ

abbrev pub new_accumulator : Bool → ScanAccumulator
new_accumulator file_ok = record {
  sv = record no_validation { file_ok = file_ok };
  first = true;
  prev_ts = pos 0;
  prev_audio_ts = pos 0;
  prev_imu_ts = pos 0;
  nominal_audio_period_ns = 0;
  prev_seq = 0;
}

-- The check of the sequence number.
unfoldable pub feed_seq : Bool → ℕ × ℤ → ℕ × ℤ → StreamValidation → StreamValidation
feed_seq first prev next sv = if first then sv else check_seq_gap StreamId.ego prev next sv

-- A time of zero is counted, without an event.
unfoldable pub count_zero : ℤ → StreamValidation → StreamValidation
count_zero ts sv =
    if is_zero ts then record sv { timestamp_violations = inc64 sv.timestamp_violations } else sv

-- The checks of the sequence number and of the times, in their order.
unfoldable pub feed_times :
    ValidatorConfig → ScanAccumulator → ℕ → ℤ → StreamValidation → StreamValidation
feed_times cfg a actual ts sv = extend_range a.first ts (
    check_jump cfg a.first a.prev_ts ts (
      check_monotonic a.first a.prev_ts ts (
        count_zero ts (
          feed_seq a.first (a.prev_seq, a.prev_ts) (actual, ts)
            (record sv { packets_valid = inc64 sv.packets_valid })))))

-- The check of the audio: `none` is the division by a sample rate of zero.
unfoldable pub feed_audio :
    ValidatorConfig → RawPacket → ℤ → ScanAccumulator → Option ScanAccumulator
feed_audio cfg raw ts a =
    let rate = field 4 2 raw.payload in
    let period = field 4 6 raw.payload * 1_000_000_000 / rate in
    let nominal =
      if a.nominal_audio_period_ns == 0 then period % 2 ^ 32 else a.nominal_audio_period_ns in
    if not (raw.header.type == 1 && leb 10 (length raw.payload))
    then some a
    else if rate == 0
    then none
    else some (record a {
      sv = check_audio_gap cfg nominal a.prev_audio_ts ts a.sv;
      nominal_audio_period_ns = nominal;
      prev_audio_ts = ts;
    })

-- The check of the IMU.
unfoldable pub feed_imu : ValidatorConfig → RawPacket → ℤ → ScanAccumulator → ScanAccumulator
feed_imu cfg raw ts a =
    if raw.header.type == 3
    then record a { sv = check_imu_gap cfg a.prev_imu_ts ts a.sv; prev_imu_ts = ts }
    else a

-- A packet that passes its checks.
unfoldable pub feed_valid : ValidatorConfig → RawPacket → ScanAccumulator → Option ScanAccumulator
feed_valid cfg raw a =
    let ts = to_int64 raw.header.ts_ns in
    elim (feed_audio cfg raw ts (record a { sv = feed_times cfg a raw.header.seq ts a.sv })) [
      | none ↦ none
      | some heard ↦ some (record (feed_imu cfg raw ts heard) {
        prev_seq = raw.header.seq;
        prev_ts = ts;
        first = false;
      })
    ]

unfoldable pub feed : ValidatorConfig → ScanAccumulator → RawPacket → Bool → Option ScanAccumulator
feed cfg a raw crc_ok =
    let sv : StreamValidation = record a.sv { packets_total = inc64 a.sv.packets_total } in
    if crc_ok
    then feed_valid cfg raw (record a { sv = sv })
    else some (record a {
      sv = record sv {
        packets_crc_failed = inc64 sv.packets_crc_failed;
        packets_lost = inc64 sv.packets_lost;
      };
    })

-- The checks of a contract frame.
unfoldable pub contract_ok : RawPacket → Bool
contract_ok raw =
    let h = raw.contract_header in
    let z : EgoFrameHeader = record h { header_crc32 = 0 } in
    h.magic == frame_magic
    && h.payload_size == length raw.payload
    && (not (ltb 0 h.payload_size) || crc32 raw.payload == h.payload_crc32)
    && crc32 (encode_header z) == h.header_crc32

unfoldable pub status_ok : ParseStatus → Bool
status_ok ParseStatus.ok = true
status_ok _ = false

unfoldable pub packet_ok : RawPacket → Bool
unfolding contract_ok status_ok
packet_ok raw = if raw.is_contract then contract_ok raw else status_ok (validate raw).status

-- The lambdas of the scans, which never ask to stop; a crash ends it all.
unfoldable pub ego_feeder :
    ValidatorConfig → Option ScanAccumulator → RawPacket → Option ScanAccumulator × Bool
ego_feeder cfg none raw = (none, false)
ego_feeder cfg (some a) raw = (feed cfg a raw (packet_ok raw), true)

unfoldable pub source_feeder :
    ValidatorConfig → Option ScanAccumulator → RawPacket → Option ScanAccumulator × Bool
source_feeder cfg none raw = (none, false)
source_feeder cfg (some a) raw = (feed cfg a raw (status_ok (validate raw).status), true)
