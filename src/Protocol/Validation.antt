-- ===== src/Protocol/Validation.antt =====
-- runtimepc/protocol/validation.hpp: the checks of a decoded packet, in their order.
use local_pc.Common.{ℕ, ◌≡◌, arith, Bool, true, false, List, length, ltb, ◌==◌, if◌then◌else◌, ◌≤◌}
use local_pc.Crc.Runtime.{crc32}
use local_pc.Protocol.Types.{
  PacketHeader, packet_magic, protocol_version, payload_version, is_known_packet_type,
}

-- The `reason` of a `ValidationResult`; `valid` is the accepted result.
pub data Verdict : Type 0 where
  valid invalid_magic unsupported_protocol_version unsupported_payload_version : Verdict
  unknown_packet_type payload_size_exceeds_limit payload_size_mismatch checksum_mismatch : Verdict

unfoldable pub validate_packet_verbose : PacketHeader → List ℕ → ℕ → Verdict
validate_packet_verbose header payload max_payload_bytes =
    if header.magic == packet_magic
    then if header.protocol_version == protocol_version
      then if header.payload_version == payload_version
        then if is_known_packet_type header.type
          then if ltb max_payload_bytes header.payload_size
            then payload_size_exceeds_limit
            else if header.payload_size == length payload
            then if header.checksum == crc32 payload then valid else checksum_mismatch
            else payload_size_mismatch
          else unknown_packet_type
        else unsupported_payload_version
      else unsupported_protocol_version
    else invalid_magic

unfoldable pub accepted : Verdict → Bool
accepted valid = true
accepted _ = false

unfoldable pub validate_packet : PacketHeader → List ℕ → ℕ → Bool
validate_packet header payload max_payload_bytes =
    accepted (validate_packet_verbose header payload max_payload_bytes)

-- What a packet must be to be accepted.
pub record IsValid (header : PacketHeader) (payload : List ℕ) (max_payload_bytes : ℕ) : Type 0 where
  pub magic : header.magic ≡ packet_magic
  pub protocol : header.protocol_version ≡ protocol_version
  pub payload_format : header.payload_version ≡ payload_version
  pub known : is_known_packet_type header.type ≡ true
  pub within : header.payload_size ≤ max_payload_bytes
  pub sized : header.payload_size ≡ length payload
  pub checksum : header.checksum ≡ crc32 payload

pub IsValid-verdict :
    (header : PacketHeader) (payload : List ℕ) (max : ℕ)
    → IsValid header payload max
    → validate_packet_verbose header payload max ≡ valid
unfolding validate_packet_verbose
IsValid-verdict header payload max v = ground arith

pub verdict-IsValid :
    (header : PacketHeader) (payload : List ℕ) (max : ℕ)
    → validate_packet_verbose header payload max ≡ valid
    → IsValid header payload max
unfolding validate_packet_verbose
verdict-IsValid header payload max e = ground arith
