-- ===== src/Protocol/Tests.antt =====
-- Packets and streams on which the laws of the protocol are applied.
use local_pc.Protocol.Guard.{validate_detailed, init, check_packet, check_order}
use local_pc.Protocol.Serialization.{
  deserialize_header, Packet, ok, deserialize_packet, serialize_packet, sealed_header,
}
use local_pc.Wire.Structs.{encode_fields, field}
use local_pc.Crc.Runtime.{crc_bit, crc_bits, crc_byte, crc_loop, crc32}
use local_pc.Wire.Words.{le_bytes, le_value}
use local_pc.Common.{List, ℕ, ◌≡◌, refl, [], ◌∷◌, true, false, ◌↔◌, ◌⊎◌, arith}
use local_pc.Protocol.Guard.Order.{
  accepted_seq, history, check_packet_accepts, run-IsAccounted, run, IsAccounted, IsNewer,
}
use local_pc.Protocol.RoundTrip.{deserialize_packet-serialize_packet}
use local_pc.Protocol.Validation.{IsValid, validate_packet_verbose}
use local_pc.Protocol.Types.{
  PacketHeader, is_known_packet_type, has_flag, join_flags, time_valid, order_valid,
}

abbrev sample_header : PacketHeader
sample_header = record {
  magic = 0x45574F48;
  protocol_version = 1;
  payload_version = 1;
  type = 3;
  payload_size = 2;
  ts_ns = 1_000_000_007;
  seq = 0xFFFFFFFF;
  status_flags = 3;
  checksum = crc32 (0x10 ∷ 0x20 ∷ []);
}

abbrev sample : Packet
sample = record { header = sample_header; payload = 0x10 ∷ 0x20 ∷ [] }

-- The type field of this header is of the right width and names no packet type.
type_beyond : is_known_packet_type 9 ≡ false
unfolding is_known_packet_type
type_beyond = refl

flags_joined : has_flag (join_flags time_valid order_valid) order_valid ≡ true
unfolding has_flag join_flags
flags_joined = refl

deserialize_packet-serialize_packet_example :
    deserialize_packet (serialize_packet sample_header (0x10 ∷ 0x20 ∷ []))
    ≡ ok (record {
      header = sealed_header sample_header (0x10 ∷ 0x20 ∷ []);
      payload = 0x10 ∷ 0x20 ∷ [];
    })
unfolding sealed_header crc32
deserialize_packet-serialize_packet_example =
    deserialize_packet-serialize_packet sample_header (0x10 ∷ 0x20 ∷ []) (omega arith) (omega arith)

check_packet_accepts_example :
    ((check_packet (init 8192) sample).1.accepted ≡ true)
    ↔ (IsValid sample.header sample.payload 8192 × ((false ≡ false) ⊎ IsNewer 0 0xFFFFFFFF))
check_packet_accepts_example = check_packet_accepts (init 8192) sample

sample_accepted : (check_packet (init 8192) sample).1.accepted ≡ true
unfolding check_packet check_order validate_packet_verbose is_known_packet_type
sample_accepted = ground arith

-- The sample, a copy of it, and bytes that are no packet.
abbrev sample_stream : List (List ℕ)
sample_stream =
    serialize_packet sample_header (0x10 ∷ 0x20 ∷ [])
    ∷ serialize_packet sample_header (0x10 ∷ 0x20 ∷ [])
    ∷ (1 ∷ 2 ∷ [])
    ∷ []

sample_history : history (init 8192) sample_stream ≡ 0xFFFFFFFF ∷ []
unfolding history accepted_seq serialize_packet sealed_header crc32 deserialize_packet
    deserialize_header encode_fields le_bytes field le_value check_packet validate_packet_verbose
    is_known_packet_type crc_loop crc_byte crc_bits crc_bit check_order validate_detailed
sample_history = refl

run-IsAccounted_example :
    IsAccounted (history (init 8192) sample_stream) (run (init 8192) sample_stream)
unfolding serialize_packet encode_fields le_bytes
run-IsAccounted_example = run-IsAccounted 8192 sample_stream (omega arith)
