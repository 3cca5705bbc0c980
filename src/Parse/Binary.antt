-- ===== src/Parse/Binary.antt =====
-- offline/src/parse/binary_parser.cpp: the checks of a packet that was read, and of one in a buffer. The
-- text of the error goes with the status.
use local_pc.Common.{
  Bool, List, [], drop, if◌then◌else◌, length, ltb, not, take, true, ℕ, ◌+◌, ◌==◌,
}
use local_pc.Load.Packets.{
  PacketHeader, RawPacket, decode_packet_header, k_header_size, k_magic, k_protocol_version,
  no_header,
}
use local_pc.Crc.Offline.{crc32}

pub data ParseStatus : Type 0 where
  ok bad_magic bad_version truncated crc_fail size_exceeded : ParseStatus

pub record ParseResult : Type 0 where
  pub status : ParseStatus
  pub header : PacketHeader
  pub payload : List ℕ

abbrev pub max_payload_size : ℕ
max_payload_size = 8192

-- The CRC32 of the payload; it is left out when there is no payload.
unfoldable pub crc_matches : PacketHeader → List ℕ → Bool
crc_matches header payload =
    if ltb 0 header.payload_size
    then crc32 (take header.payload_size payload) == header.checksum
    else true

unfoldable pub validate_status : RawPacket → ParseStatus
unfolding crc_matches
validate_status raw =
    if not (raw.header.magic == k_magic)
    then bad_magic
    else if not (raw.header.protocol_version == k_protocol_version)
    then bad_version
    else if ltb max_payload_size raw.header.payload_size
    then size_exceeded
    else if ltb (length raw.payload) raw.header.payload_size
    then truncated
    else if not (crc_matches raw.header raw.payload)
    then crc_fail
    else ok

unfoldable pub validate : RawPacket → ParseResult
validate raw = record { status = validate_status raw; header = raw.header; payload = raw.payload }

abbrev pub out : ParseStatus → PacketHeader → List ℕ → ParseResult
out status header payload = record { status = status; header = header; payload = payload }

-- The count of consumed bytes, 0 on failure, and `out`.
unfoldable pub parse_from_buffer : List ℕ → ℕ × ParseResult
unfolding crc_matches
parse_from_buffer buffer =
    let header = decode_packet_header buffer in
    let total = k_header_size + header.payload_size in
    let payload = take header.payload_size (drop k_header_size buffer) in
    if ltb (length buffer) k_header_size
    then (0, out truncated no_header [])
    else if not (header.magic == k_magic)
    then (0, out bad_magic header [])
    else if not (header.protocol_version == k_protocol_version)
    then (0, out bad_version header [])
    else if ltb max_payload_size header.payload_size
    then (0, out size_exceeded header [])
    else if ltb (length buffer) total
    then (0, out truncated header [])
    else if not (crc_matches header payload)
    then (0, out crc_fail header payload)
    else (total, out ok header payload)
