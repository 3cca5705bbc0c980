-- ===== src/Protocol/Serialization.antt =====
-- runtimepc/protocol/serialization.hpp: a packet as bytes, field by field, and back.
use local_pc.Common.{ℕ, ◌+◌, List, [], ◌∷◌, ◌++◌, length, drop, ltb, ◌==◌, if◌then◌else◌, ◌%◌, ◌^◌}
use local_pc.Wire.{encode_fields, field}
use local_pc.Crc.Runtime.{crc32}
use local_pc.Protocol.Types.{PacketHeader}

abbrev pub packet_header_size : ℕ
packet_header_size = 34

-- What the functions throw.
pub data DecodeError : Type 0 where
  decode_overflow header_too_small packet_size_mismatch : DecodeError

pub data Result {ℓ} (A : Type ℓ) : Type ℓ where
  ok : A → Result A
  throw : DecodeError → Result A

infixl 5 ◌>>=◌
abbrev pub ◌>>=◌ {ℓ κ} : {A : Type ℓ} {B : Type κ} → Result A → (A → Result B) → Result B
ok a >>= f = f a
throw e >>= f = throw e

pub record Packet : Type 0 where
  pub header : PacketHeader
  pub payload : List ℕ

-- `ReadPod<T>` for a `T` of `size` bytes.
unfoldable pub read_pod : ℕ → List ℕ → ℕ → Result ℕ
read_pod size bytes offset =
    if ltb (length bytes) (offset + size)
    then throw decode_overflow
    else ok (field size offset bytes)

-- The fields in the order of the `AppendBytes` calls, with their widths.
abbrev pub header_fields : PacketHeader → List (ℕ × ℕ)
header_fields h =
    (4, h.magic)
    ∷ (2, h.protocol_version)
    ∷ (2, h.payload_version)
    ∷ (2, h.type)
    ∷ (4, h.payload_size)
    ∷ (8, h.ts_ns)
    ∷ (4, h.seq)
    ∷ (4, h.status_flags)
    ∷ (4, h.checksum)
    ∷ []

unfoldable pub serialize_header : PacketHeader → List ℕ
serialize_header header = encode_fields (header_fields header)

unfoldable pub deserialize_header : List ℕ → Result PacketHeader
unfolding read_pod
deserialize_header bytes =
    if ltb (length bytes) packet_header_size then throw header_too_small else do
      magic ← read_pod 4 bytes 0
      protocol_version ← read_pod 2 bytes 4
      payload_version ← read_pod 2 bytes 6
      type ← read_pod 2 bytes 8
      payload_size ← read_pod 4 bytes 10
      ts_ns ← read_pod 8 bytes 14
      seq ← read_pod 4 bytes 22
      status_flags ← read_pod 4 bytes 26
      checksum ← read_pod 4 bytes 30
      ok (record {
        magic = magic;
        protocol_version = protocol_version;
        payload_version = payload_version;
        type = type;
        payload_size = payload_size;
        ts_ns = ts_ns;
        seq = seq;
        status_flags = status_flags;
        checksum = checksum;
      })

-- The header that `SerializePacket` writes: the size is cast to `uint32_t`.
unfoldable pub sealed_header : PacketHeader → List ℕ → PacketHeader
sealed_header header payload = record header {
  payload_size = length payload % 2 ^ 32;
  checksum = crc32 payload;
}

unfoldable pub serialize_packet : PacketHeader → List ℕ → List ℕ
unfolding sealed_header serialize_header
serialize_packet header payload = serialize_header (sealed_header header payload) ++ payload

unfoldable pub deserialize_packet : List ℕ → Result Packet
deserialize_packet bytes = do
  header ← deserialize_header bytes
  if packet_header_size + header.payload_size == length bytes
      then ok (record { header = header; payload = drop packet_header_size bytes })
      else throw packet_size_mismatch
