-- ===== src/Protocol/RoundTrip.antt =====
-- A packet that is written is read back as it was.
use local_pc.Common.{
  ◌∙◌, ap, sym, drop-append, length-append, All, ◌^◌, drop, ◌+◌, ℕ, ◌≡◌, arith, List, ◌++◌, length,
  ◌<◌, ◌≤◌,
}
use local_pc.Wire.{IsByte, encode_fields, field}
use local_pc.Wire.Structs.{
  length-encode_fields, field-lt, Fit, width, offset, content, field-encode_fields,
}
use local_pc.Protocol.Types.{PacketHeader}
use local_pc.Protocol.Serialization.{
  Packet, deserialize_packet, serialize_packet, sealed_header, ok, throw, header_too_small,
  header_fields, serialize_header, deserialize_header, packet_header_size,
}

-- The header that stands in the first 34 bytes.
abbrev pub header_at : List ℕ → PacketHeader
header_at bytes = record {
  magic = field 4 0 bytes;
  protocol_version = field 2 4 bytes;
  payload_version = field 2 6 bytes;
  type = field 2 8 bytes;
  payload_size = field 4 10 bytes;
  ts_ns = field 8 14 bytes;
  seq = field 4 22 bytes;
  status_flags = field 4 26 bytes;
  checksum = field 4 30 bytes;
}

pub deserialize_header-eq_ok :
    (bytes : List ℕ)
    → packet_header_size ≤ length bytes
    → deserialize_header bytes ≡ ok (header_at bytes)
unfolding deserialize_header
deserialize_header-eq_ok bytes h = ground arith

pub deserialize_header_short :
    (bytes : List ℕ)
    → length bytes < packet_header_size
    → deserialize_header bytes ≡ throw header_too_small
unfolding deserialize_header
deserialize_header_short bytes h = ground arith

-- Every field holds a value of its width.
abbrev pub HeaderFits : PacketHeader → Type 0
HeaderFits h = Fit (header_fields h)

pub header_at-serialize_header :
    (h : PacketHeader) (rest : List ℕ) → HeaderFits h → header_at (serialize_header h ++ rest) ≡ h
unfolding serialize_header
header_at-serialize_header h rest f = λ i. record {
  magic = at 0 (omega arith) i;
  protocol_version = at 1 (omega arith) i;
  payload_version = at 2 (omega arith) i;
  type = at 3 (omega arith) i;
  payload_size = at 4 (omega arith) i;
  ts_ns = at 5 (omega arith) i;
  seq = at 6 (omega arith) i;
  status_flags = at 7 (omega arith) i;
  checksum = at 8 (omega arith) i;
}
  where
    at :
        (i : ℕ) (k : i < 9)
        → field
            (width (header_fields h) i)
            (offset (header_fields h) i)
            (encode_fields (header_fields h) ++ rest)
          ≡ content (header_fields h) i
    at i k = field-encode_fields (header_fields h) i rest k f

-- A packet that `deserialize_packet` returns consists of the bytes that it was given.
pub deserialize_packet-eq_ok :
    (bytes : List ℕ)
    → packet_header_size ≤ length bytes
    → 34 + (header_at bytes).payload_size ≡ length bytes
    → deserialize_packet bytes
      ≡ ok (record { header = header_at bytes; payload = drop packet_header_size bytes })
unfolding deserialize_packet
deserialize_packet-eq_ok bytes h e = ground (arith, deserialize_header-eq_ok bytes h)

-- `DeserializePacket` reads back what `SerializePacket` wrote, with the size and the checksum filled
-- in, when the fields of the header fit their widths and the length of the payload fits 32 bits.
pub deserialize_packet-serialize_packet :
    (header : PacketHeader) (payload : List ℕ)
    → HeaderFits (sealed_header header payload)
    → length payload < 2 ^ 32
    → deserialize_packet (serialize_packet header payload)
      ≡ ok (record { header = sealed_header header payload; payload = payload })
unfolding serialize_packet
deserialize_packet-serialize_packet header payload f short =
    deserialize_packet-eq_ok whole (omega (arith, size))
      (omega (arith, size, ap (λ (h : PacketHeader). h.payload_size) same))
    ∙ λ i. ok (record { header = same i; payload = rest i })
  where
    h : PacketHeader
    h = sealed_header header payload

    whole : List ℕ
    whole = serialize_header h ++ payload

    head_size : length (serialize_header h) ≡ 34
    head_size = length-encode_fields (header_fields h)

    size : length whole ≡ 34 + length payload
    size = omega (arith, length-append (serialize_header h) payload, head_size)

    same : header_at whole ≡ h
    same = header_at-serialize_header h payload f

    rest : drop packet_header_size whole ≡ payload
    rest = drop-append packet_header_size (serialize_header h) payload (sym head_size)

-- The sequence number of a decoded packet is a 32-bit word.
pub deserialize_packet-seq :
    (bytes : List ℕ) (p : Packet)
    → All IsByte bytes
    → deserialize_packet bytes ≡ ok p
    → p.header.seq < 2 ^ 32
unfolding deserialize_packet deserialize_header
deserialize_packet-seq bytes p h e = ground (arith, field-lt 4 22 bytes h)
