-- ===== src/Protocol/Guard.antt =====
-- runtimepc/protocol/transport_guard.hpp: packets are accepted in the order of their sequence
-- numbers, which wrap at 2 ^ 32.
pub mod Order
use local_pc.Common.{
  ℕ, Bool, true, false, List, ltb, if◌then◌else◌, ℤ, pos, to_int32, sub32, inc64, add64, leb_ℤ,
  ltb_ℤ, pos_part, ◌-◌,
}
use local_pc.Protocol.Serialization.{Packet, ok, throw, deserialize_packet}
use local_pc.Protocol.Validation.{
  Verdict, valid, invalid_magic, unsupported_protocol_version, unsupported_payload_version,
  unknown_packet_type, payload_size_exceeds_limit, payload_size_mismatch, checksum_mismatch,
  validate_packet_verbose,
}

pub data RejectReason : Type 0 where
  no_reason parse_error bad_magic bad_version bad_length bad_checksum out_of_order unknown_type :
      RejectReason

pub record TransportCounters : Type 0 where
  pub accepted : ℕ
  pub rejected : ℕ
  pub out_of_order : ℕ
  pub seq_gaps : ℕ
  pub packets_lost : ℕ
  pub wraparound_events : ℕ

pub record TransportResult : Type 0 where
  pub accepted : Bool
  pub reason : RejectReason

pub record Guard : Type 0 where
  pub max_payload_bytes : ℕ
  pub last_seq : ℕ
  pub seen_first : Bool
  pub counters : TransportCounters

abbrev pub init : ℕ → Guard
init max_payload_bytes = record {
  max_payload_bytes = max_payload_bytes;
  last_seq = 0;
  seen_first = false;
  counters = record {
    accepted = 0;
    rejected = 0;
    out_of_order = 0;
    seq_gaps = 0;
    packets_lost = 0;
    wraparound_events = 0;
  };
}

-- `valid` is never asked for.
unfoldable pub reason_from_validation : Verdict → RejectReason
reason_from_validation invalid_magic = bad_magic
reason_from_validation checksum_mismatch = bad_checksum
reason_from_validation payload_size_mismatch = bad_length
reason_from_validation payload_size_exceeds_limit = bad_length
reason_from_validation unsupported_protocol_version = bad_version
reason_from_validation unsupported_payload_version = bad_version
reason_from_validation unknown_packet_type = unknown_type
reason_from_validation valid = parse_error

unfoldable pub reject : Guard → RejectReason → Guard × TransportResult
reject g reason = (
  record g { counters = record c { rejected = inc64 c.rejected } },
  record { accepted = false; reason = reason },
)
  where
    c : TransportCounters
    c = g.counters

unfoldable pub reject_order : Guard → Guard × TransportResult
reject_order g = (
  record g {
    counters = record c { rejected = inc64 c.rejected; out_of_order = inc64 c.out_of_order };
  },
  record { accepted = false; reason = RejectReason.out_of_order },
)
  where
    c : TransportCounters
    c = g.counters

-- The counters of a packet that is not the first, `diff` sequence numbers after the last one.
unfoldable pub count_gap : TransportCounters → ℕ → ℕ → ℤ → TransportCounters
count_gap c seq last_seq diff = record c {
  wraparound_events = if ltb seq last_seq then inc64 c.wraparound_events else c.wraparound_events;
  seq_gaps = if ltb_ℤ (pos 1) diff then inc64 c.seq_gaps else c.seq_gaps;
  packets_lost =
      if ltb_ℤ (pos 1) diff then add64 c.packets_lost (pos_part diff - 1) else c.packets_lost;
}

unfoldable pub accept : Guard → ℕ → TransportCounters → Guard × TransportResult
accept g seq c = (
  record g {
    last_seq = seq;
    seen_first = true;
    counters = record c { accepted = inc64 c.accepted };
  },
  record { accepted = true; reason = no_reason },
)

unfoldable pub check_order : Guard → ℕ → Guard × TransportResult
unfolding reject_order count_gap accept
check_order g seq =
    let diff = to_int32 (sub32 seq g.last_seq) in
    if g.seen_first
    then if leb_ℤ diff (pos 0)
      then reject_order g
      else accept g seq (count_gap g.counters seq g.last_seq diff)
    else accept g seq g.counters

unfoldable pub check_packet : Guard → Packet → Guard × TransportResult
unfolding reject reason_from_validation
check_packet g packet =
    elim (validate_packet_verbose packet.header packet.payload g.max_payload_bytes) [
      | valid ↦ check_order g packet.header.seq
      | verdict ↦ reject g (reason_from_validation verdict)
    ]

unfoldable pub validate_detailed : Guard → List ℕ → Guard × TransportResult
unfolding reject
validate_detailed g packet_bytes = elim (deserialize_packet packet_bytes) [
  | ok packet ↦ check_packet g packet
  | throw e ↦ reject g parse_error
]
