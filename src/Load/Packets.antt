-- ===== src/Load/Packets.antt =====
-- offline/include/ego_offline/protocol.hpp and load/ego_log_reader.hpp: the packet header, what a reader
-- makes of a packet, and what it reads them from. A path is its text.
use local_pc.Common.{ℕ, ◌^◌, ◌-◌, Bool, Option, List, ℤ, pos, negsuc, ltb, if◌then◌else◌}
use local_pc.Wire.{field}
use local_pc.Frame.Header.{EgoFrameHeader}

abbrev pub k_magic : ℕ
k_magic = 0x45574F48

abbrev pub k_protocol_version : ℕ
k_protocol_version = 1

abbrev pub k_header_size : ℕ
k_header_size = 34

-- Each field is an unsigned integer of the width that the source declares.
pub record PacketHeader : Type 0 where
  pub magic : ℕ
  pub protocol_version : ℕ
  pub payload_version : ℕ
  pub type : ℕ
  pub payload_size : ℕ
  pub ts_ns : ℕ
  pub seq : ℕ
  pub status_flags : ℕ
  pub checksum : ℕ

-- `memcpy(&header, data, kHeaderSize)`
unfoldable pub decode_packet_header : List ℕ → PacketHeader
decode_packet_header bytes = record {
  magic = field 4 0 bytes;
  protocol_version = field 2 4 bytes;
  payload_version = field 2 6 bytes;
  type = field 2 8 bytes;
  payload_size = field 4 10 bytes;
  ts_ns = field 8 14 bytes;
  seq = field 4 22 bytes;
  status_flags = field 4 26 bytes;
  checksum = field 4 30 bytes;
}

-- `PacketHeader header{}` and `EgoFrameHeader contract_header{}`
abbrev pub no_header : PacketHeader
no_header = record {
  magic = 0;
  protocol_version = 0;
  payload_version = 0;
  type = 0;
  payload_size = 0;
  ts_ns = 0;
  seq = 0;
  status_flags = 0;
  checksum = 0;
}

abbrev pub no_contract_header : EgoFrameHeader
no_contract_header = record {
  magic = 0;
  protocol_ver = 0;
  header_size = 0;
  frame_type = 0;
  flags = 0;
  session_id_hi = 0;
  session_id_lo = 0;
  seq = 0;
  t0_ns = 0;
  t1_ns = 0;
  payload_size = 0;
  payload_crc32 = 0;
  header_crc32 = 0;
  reserved0 = 0;
}

pub record RawPacket : Type 0 where
  pub header : PacketHeader
  pub contract_header : EgoFrameHeader
  pub is_contract : Bool
  pub payload : List ℕ
  pub chunk_id : ℕ
  pub file_offset : ℕ

-- The times and the count of a chunk are read from the manifest and not looked at.
pub record ChunkInfo : Type 0 where
  pub path : List ℕ
  pub chunk_id : ℕ

pub record Manifest : Type 0 where
  pub packet_count : ℕ
  pub chunks : List ChunkInfo

-- The files that can be opened, with their bytes.
abbrev pub Files : Type 0
Files = List ℕ → Option (List ℕ)

-- `static_cast<ns_t>` of a `uint64_t`.
abbrev pub to_int64 : ℕ → ℤ
to_int64 w = if ltb w (2 ^ 63) then pos w else negsuc (2 ^ 64 - 1 - w)
