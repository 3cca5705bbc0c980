-- ===== src/Unwrap/Stream.antt =====
-- `Sc589Unwrap`. A call of the handler is an entry of `emitted`.
use local_pc.Common.{
  is_empty, Bool, List, Option, [], drop, false, if◌then◌else◌, inc64, length, ltb, none, not, some,
  suc, take, true, zero, ℕ, ◌&&◌, ◌++◌, ◌+◌, ◌-◌, ◌==◌, ◌||◌, ◌∷◌,
}
use local_pc.Protocol.Serialization.{deserialize_header, deserialize_packet, ok, throw}
use local_pc.Protocol.Validation.{accepted, validate_packet_verbose}
use local_pc.Protocol.Types.{PacketHeader, packet_magic}
use local_pc.Crc.Runtime.{crc32}
use local_pc.Wire.Structs.{field}

-- `enum class UnwrapPolicy`
pub data UnwrapPolicy : Type 0 where
  off on auto : UnwrapPolicy

pub record UnwrapStats : Type 0 where
  pub frames_seen : ℕ
  pub packets_emitted : ℕ
  pub packets_rejected : ℕ
  pub reject_crc_outer : ℕ
  pub sync_losses : ℕ

pub record Unwrap : Type 0 where
  pub policy : UnwrapPolicy
  pub max_payload_bytes : ℕ
  pub buffer : List ℕ
  pub stats : UnwrapStats
  pub emitted : List (List ℕ)

abbrev pub init : UnwrapPolicy → ℕ → Unwrap
init policy max_payload_bytes = record {
  policy = policy;
  max_payload_bytes = max_payload_bytes;
  buffer = [];
  stats = record {
    frames_seen = 0;
    packets_emitted = 0;
    packets_rejected = 0;
    reject_crc_outer = 0;
    sync_losses = 0;
  };
  emitted = [];
}

unfoldable pub drop_front : ℕ → Bool → Unwrap → Unwrap
drop_front count sync_loss u = record u {
  buffer = drop count u.buffer;
  stats = if sync_loss then record u.stats { sync_losses = inc64 u.stats.sync_losses } else u.stats;
}

unfoldable pub reject : Unwrap → Unwrap
reject u = record u { stats = record u.stats { packets_rejected = inc64 u.stats.packets_rejected } }

unfoldable pub see_frame : Unwrap → Unwrap
see_frame u = record u { stats = record u.stats { frames_seen = inc64 u.stats.frames_seen } }

-- Whether the packet is decoded and valid.
unfoldable pub passes : ℕ → List ℕ → Bool
passes max packet = elim (deserialize_packet packet) [
  | throw e ↦ false
  | ok parsed ↦ accepted (validate_packet_verbose parsed.header parsed.payload max)
]

unfoldable pub emit : List ℕ → Unwrap → Unwrap
unfolding reject
emit packet u =
    if passes u.max_payload_bytes packet
    then record u {
      stats = record u.stats { packets_emitted = inc64 u.stats.packets_emitted };
      emitted = u.emitted ++ packet ∷ [];
    }
    else reject u

unfoldable pub starts_with_sof : List ℕ → Bool
starts_with_sof (a ∷ b ∷ rest) = a == 0xA5 && b == 0x5A
starts_with_sof _ = false

-- The bytes joined by shifts are a little-endian word.
unfoldable pub starts_with_packet_magic : List ℕ → Bool
starts_with_packet_magic buffer =
    if ltb (length buffer) 4 then false else field 4 0 buffer == packet_magic

-- `TryConsumePacketOnly` on the header that was decoded.
unfoldable pub consume_packet : PacketHeader → Unwrap → Unwrap × Bool
unfolding drop_front reject see_frame
consume_packet header u =
    let packet_size = 34 + header.payload_size in
    if not (header.magic == packet_magic) || ltb u.max_payload_bytes header.payload_size
    then (drop_front 1 true (reject u), true)
    else if ltb (length u.buffer) packet_size
    then (u, false)
    else (emit (take packet_size u.buffer) (see_frame (drop_front packet_size false u)), true)

unfoldable pub try_consume_packet_only : Unwrap → Unwrap × Bool
try_consume_packet_only u =
    if ltb (length u.buffer) 34 then (u, false) else elim (deserialize_header (take 34 u.buffer)) [
      | throw e ↦ (drop_front 1 true (reject u), true)
      | ok header ↦ consume_packet header u
    ]

unfoldable pub reject_crc : Unwrap → Unwrap
unfolding reject
reject_crc u =
    reject
      (record u { stats = record u.stats { reject_crc_outer = inc64 u.stats.reject_crc_outer } })

-- `TryConsumeWrappedFrame` when the whole frame is there.
unfoldable pub consume_frame : ℕ → Unwrap → Unwrap × Bool
unfolding drop_front see_frame reject_crc
consume_frame wrapped_len u =
    let inner_size = wrapped_len - 5 in
    if not (crc32 (take (1 + inner_size) (drop 4 u.buffer)) == field 4 wrapped_len u.buffer)
    then (drop_front 1 true (reject_crc u), true)
    else (
      emit (take inner_size (drop 5 u.buffer)) (see_frame (drop_front (4 + wrapped_len) false u)),
      true,
    )

unfoldable pub try_consume_wrapped_frame : Unwrap → Unwrap × Bool
unfolding drop_front reject
try_consume_wrapped_frame u =
    let wrapped_len = field 2 2 u.buffer in
    if not (starts_with_sof u.buffer) || ltb (length u.buffer) 4
    then (u, false)
    else if ltb wrapped_len 39 || ltb 4096 (4 + wrapped_len)
    then (drop_front 1 true (reject u), true)
    else if ltb (length u.buffer) (4 + wrapped_len)
    then (u, false)
    else consume_frame wrapped_len u

-- A round of the loop of the automatic mode; `false` leaves it.
unfoldable pub consume_auto : Unwrap → Unwrap × Bool
consume_auto u =
    if is_empty u.buffer
    then (u, false)
    else if starts_with_sof u.buffer
    then try_consume_wrapped_frame u
    else if starts_with_packet_magic u.buffer
    then try_consume_packet_only u
    else (drop_front 1 true u, true)

unfoldable pub consume_round : UnwrapPolicy → Unwrap → Unwrap × Bool
consume_round off u = try_consume_packet_only u
consume_round on u = try_consume_wrapped_frame u
consume_round auto u = consume_auto u

-- The loop, on fuel: each round that goes on drops a byte, so one for each byte, and one to leave, are
-- enough.
unfoldable pub consume_loop : ℕ → Unwrap → Option Unwrap
consume_loop zero u = none
consume_loop (suc fuel) u =
    let (u', go_on) = consume_round u.policy u in
    elim go_on [ true ↦ consume_loop fuel u' | false ↦ some u' ]

unfoldable pub consume : Unwrap → Option Unwrap
consume u = consume_loop (suc (length u.buffer)) u

unfoldable pub feed : List ℕ → Unwrap → Option Unwrap
feed bytes u = consume (record u { buffer = u.buffer ++ bytes })

unfoldable pub finalize : Unwrap → Unwrap
finalize u =
    if is_empty u.buffer then u else elim u.policy [ off ↦ (try_consume_packet_only u).0 | _ ↦ u ]
