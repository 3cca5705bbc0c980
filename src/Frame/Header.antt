-- ===== src/Frame/Header.antt =====
-- offline/include/ego_offline/ego_contract_protocol.hpp: the header of a contract frame, a packed
-- struct of 72 bytes, and the frame types that the program looks at.
use local_pc.Common.{ℕ, List, [], ◌∷◌}
use local_pc.Wire.{field, encode_fields}

abbrev pub frame_magic : ℕ
frame_magic = 0x314F4745

abbrev pub frame_header_size : ℕ
frame_header_size = 72

-- Each field is an unsigned integer of the width that the source declares.
pub record EgoFrameHeader : Type 0 where
  pub magic : ℕ
  pub protocol_ver : ℕ
  pub header_size : ℕ
  pub frame_type : ℕ
  pub flags : ℕ
  pub session_id_hi : ℕ
  pub session_id_lo : ℕ
  pub seq : ℕ
  pub t0_ns : ℕ
  pub t1_ns : ℕ
  pub payload_size : ℕ
  pub payload_crc32 : ℕ
  pub header_crc32 : ℕ
  pub reserved0 : ℕ

abbrev pub header_fields : EgoFrameHeader → List (ℕ × ℕ)
header_fields h =
    (4, h.magic)
    ∷ (2, h.protocol_ver)
    ∷ (2, h.header_size)
    ∷ (4, h.frame_type)
    ∷ (4, h.flags)
    ∷ (8, h.session_id_hi)
    ∷ (8, h.session_id_lo)
    ∷ (8, h.seq)
    ∷ (8, h.t0_ns)
    ∷ (8, h.t1_ns)
    ∷ (4, h.payload_size)
    ∷ (4, h.payload_crc32)
    ∷ (4, h.header_crc32)
    ∷ (4, h.reserved0)
    ∷ []

-- `memcpy(&header, bytes, sizeof(header))`
unfoldable pub decode_header : List ℕ → EgoFrameHeader
decode_header bytes = record {
  magic = field 4 0 bytes;
  protocol_ver = field 2 4 bytes;
  header_size = field 2 6 bytes;
  frame_type = field 4 8 bytes;
  flags = field 4 12 bytes;
  session_id_hi = field 8 16 bytes;
  session_id_lo = field 8 24 bytes;
  seq = field 8 32 bytes;
  t0_ns = field 8 40 bytes;
  t1_ns = field 8 48 bytes;
  payload_size = field 4 56 bytes;
  payload_crc32 = field 4 60 bytes;
  header_crc32 = field 4 64 bytes;
  reserved0 = field 4 68 bytes;
}

-- The bytes of the struct, as `reinterpret_cast<const uint8_t*>(&header)` shows them.
unfoldable pub encode_header : EgoFrameHeader → List ℕ
encode_header h = encode_fields (header_fields h)

-- `enum class FrameType`, by its values.
pub data FrameType : Type 0 where
  session_started config_snapshot audio_block imu_window can_decoded can_raw : FrameType
  trajectory gps_fix system_status session_ended : FrameType

unfoldable pub type_code : FrameType → ℕ
type_code session_started = 1
type_code config_snapshot = 2
type_code audio_block = 100
type_code imu_window = 101
type_code can_decoded = 102
type_code can_raw = 103
type_code trajectory = 104
type_code gps_fix = 105
type_code system_status = 201
type_code session_ended = 900
