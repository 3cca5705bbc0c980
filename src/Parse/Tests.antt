-- ===== src/Parse/Tests.antt =====
-- A packet that is scanned, parsed and serialized.
use local_pc.Common.{[], arith, drop, refl, ◌++◌, ◌∷◌, ◌≡◌}
use local_pc.Parse.Binary.{ok, out, parse_from_buffer, validate, validate_status}
use local_pc.Protocol.Serialization.{sealed_header, serialize_packet}
use local_pc.Load.Packets.{RawPacket, decode_packet_header}
use local_pc.Parse.Sample.{sample_bytes}
use local_pc.Parse.Agreement.{
  parse_from_buffer-serialize_packet, to_offline, validate-parse_from_buffer,
}
use local_pc.Load.Scan.{fetch_legacy, legacy_packet, packet}
use local_pc.Crc.Offline.{crc32, crc32_loop, crc32_table, entry_bit, entry_bits, fill_table}
use local_pc.Wire.Structs.{field}
use local_pc.Wire.Words.{le_value}
use local_pc.Protocol.Types
use local_pc.Crc.Runtime

abbrev sample_packet : RawPacket
sample_packet = legacy_packet (decode_packet_header sample_bytes) (drop 34 sample_bytes) 0 0

fetched : fetch_legacy 0 sample_bytes 0 ≡ packet sample_packet [] 36
unfolding fetch_legacy decode_packet_header field le_value
fetched = refl

validate-parse_from_buffer_example :
    ((validate sample_packet).status ≡ (parse_from_buffer sample_bytes).1.status)
    × ((validate sample_packet).status ≡ ok
        → (parse_from_buffer sample_bytes ≡ (36, validate sample_packet))
          × (drop 36 sample_bytes ≡ []))
validate-parse_from_buffer_example =
    validate-parse_from_buffer sample_bytes [] 0 0 36 sample_packet fetched

valid : (validate sample_packet).status ≡ ok
unfolding validate validate_status legacy_packet decode_packet_header field le_value crc32
    crc32_table crc32_loop fill_table entry_bits entry_bit
valid = refl

abbrev runtime_header : Types.PacketHeader
runtime_header = record {
  magic = 0x45574F48;
  protocol_version = 1;
  payload_version = 1;
  type = 3;
  payload_size = 0;
  ts_ns = 1_000_000_007;
  seq = 7;
  status_flags = 3;
  checksum = 0;
}

parse_from_buffer-serialize_packet_example :
    parse_from_buffer (serialize_packet runtime_header (0x10 ∷ 0x20 ∷ []) ++ 9 ∷ [])
    ≡ (36, out ok (to_offline (sealed_header runtime_header (0x10 ∷ 0x20 ∷ []))) (0x10 ∷ 0x20 ∷ []))
unfolding sealed_header Runtime.crc32
parse_from_buffer-serialize_packet_example =
    parse_from_buffer-serialize_packet runtime_header (0x10 ∷ 0x20 ∷ []) (9 ∷ []) (omega arith) refl
      refl (omega arith) (omega arith)
