-- ===== src/Protocol/Types.antt =====
-- runtimepc/protocol/types.hpp: the packet header, the packet types and the status flags.
use local_pc.Common.{ℕ, Bool, ◌&&◌, not, bit_and, leb, ◌==◌}
use Prim.Native.Nat.{bit_or}

abbrev pub packet_magic : ℕ
packet_magic = 0x45574F48

abbrev pub protocol_version : ℕ
protocol_version = 1

abbrev pub payload_version : ℕ
payload_version = 1

-- `enum class PacketType : uint16_t`, by its values.
pub data PacketType : Type 0 where
  audio_block can_frame imu_sample motion_state : PacketType
  gps_fix session_frame diagnostics session_meta : PacketType

unfoldable pub type_code : PacketType → ℕ
type_code audio_block = 1
type_code can_frame = 2
type_code imu_sample = 3
type_code motion_state = 4
type_code gps_fix = 5
type_code session_frame = 6
type_code diagnostics = 7
type_code session_meta = 8

-- Each field is an unsigned integer of the width that the source declares.
pub record PacketHeader : Type 0 where
  pub magic : ℕ
  pub protocol_version : ℕ
  pub payload_version : ℕ
  pub type : ℕ
  pub payload_size : ℕ
  pub ts_ns : ℕ
  pub seq : ℕ
  pub status_flags : ℕ
  pub checksum : ℕ

unfoldable pub is_known_packet_type : ℕ → Bool
unfolding type_code
is_known_packet_type type = leb (type_code audio_block) type && leb type (type_code session_meta)

-- `operator|` and `HasFlag` on `enum class StatusFlags : uint32_t`.
abbrev pub time_valid : ℕ
time_valid = 1

abbrev pub checksum_valid : ℕ
checksum_valid = 2

abbrev pub order_valid : ℕ
order_valid = 4

abbrev pub sync_degraded : ℕ
sync_degraded = 8

abbrev pub sensor_dropped : ℕ
sensor_dropped = 16

unfoldable pub join_flags : ℕ → ℕ → ℕ
join_flags lhs rhs = bit_or lhs rhs

unfoldable pub has_flag : ℕ → ℕ → Bool
has_flag value flag = not (bit_and value flag == 0)
