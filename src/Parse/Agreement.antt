-- ===== src/Parse/Agreement.antt =====
-- A packet that is scanned and the same bytes in a buffer pass the same checks, and a packet of the
-- runtime side passes them.
use local_pc.Common.{drop-append, length-append, take-append}
use local_pc.Protocol.Serialization.{header_fields}
use local_pc.Load.Frames.{take_all}
use local_pc.Crc.Equivalence.{offline_crc32-runtime_crc32}
use local_pc.Wire.Structs.{length-encode_fields}
use mathlib.Core.List.{append_assoc}
use local_pc.Common.{All, sym, ◌++◌, ◌∙◌}
use local_pc.Protocol.RoundTrip.{HeaderFits, header_at-serialize_header}
use local_pc.Protocol.Serialization.{sealed_header, serialize_header, serialize_packet}
use local_pc.Protocol.Types.{packet_magic, payload_version, protocol_version}
use local_pc.Load.Packets.{PacketHeader}
use local_pc.Wire.Structs.{drop_more}
use local_pc.Wire.Words.{IsByte}
use local_pc.Protocol.Types
use local_pc.Crc.Offline
use local_pc.Common.{
  List, [], ap, arith, drop, length, length-drop, length-take, refl, suc, take, zero, ℕ, ◌+◌, ◌-◌,
  ◌∷◌, ◌≡◌, ◌≤◌,
}
use local_pc.Parse.Binary.{ok, out, parse_from_buffer, validate, validate_status}
use local_pc.Load.Scan.{fetch_legacy, legacy_packet, packet}
use local_pc.Load.Packets.{RawPacket, decode_packet_header, k_magic}

-- What a fetched packet is.
fetch_legacy_shape :
    (bytes rest : List ℕ) (chunk_id offset next : ℕ) (p : RawPacket)
    → fetch_legacy chunk_id bytes offset ≡ packet p rest next
    → (p ≡ legacy_packet (decode_packet_header bytes) (drop 34 bytes) chunk_id offset)
      × (rest ≡ drop (decode_packet_header bytes).payload_size (drop 34 bytes))
      × (next ≡ offset + 34 + (decode_packet_header bytes).payload_size)
      × (34 ≤ length bytes)
      × ((decode_packet_header bytes).magic ≡ k_magic)
      × ((decode_packet_header bytes).payload_size ≤ length (drop 34 bytes))
unfolding fetch_legacy
fetch_legacy_shape bytes rest chunk_id offset next p e = ground arith

take-take : (n : ℕ) (xs : List ℕ) → take n (take n xs) ≡ take n xs
take-take zero xs = refl
take-take (suc n) [] = refl
take-take (suc n) (x ∷ xs) = ap (λ t. x ∷ t) (take-take n xs)

-- Both ways to the status.
statuses :
    (bytes : List ℕ) (chunk_id offset : ℕ)
    → 34 ≤ length bytes
    → (decode_packet_header bytes).magic ≡ k_magic
    → (decode_packet_header bytes).payload_size ≤ length (drop 34 bytes)
    → let hdr = decode_packet_header bytes in
      let s = validate_status (legacy_packet hdr (drop 34 bytes) chunk_id offset) in
      (s ≡ (parse_from_buffer bytes).1.status)
      × (s ≡ ok
          → parse_from_buffer bytes
            ≡ (34 + hdr.payload_size, out ok hdr (take hdr.payload_size (drop 34 bytes))))
unfolding validate_status parse_from_buffer legacy_packet
statuses bytes chunk_id offset l m f = ground (
  arith,
  length-take (decode_packet_header bytes).payload_size (drop 34 bytes),
  length-drop 34 bytes,
  take-take (decode_packet_header bytes).payload_size (drop 34 bytes),
)

-- Read by a scan or parsed in place, a packet passes the same checks, and then the parser consumes
-- what the scan passes.
pub validate-parse_from_buffer :
    (bytes rest : List ℕ) (chunk_id offset next : ℕ) (p : RawPacket)
    → fetch_legacy chunk_id bytes offset ≡ packet p rest next
    → ((validate p).status ≡ (parse_from_buffer bytes).1.status)
      × ((validate p).status ≡ ok
          → (parse_from_buffer bytes ≡ (next - offset, validate p))
            × (drop (next - offset) bytes ≡ rest))
unfolding validate legacy_packet
validate-parse_from_buffer bytes rest chunk_id offset next p e =
    let (is_packet, is_rest, is_next, l, m, f) =
      fetch_legacy_shape bytes rest chunk_id offset next p e in
    let (same, full) = statuses bytes chunk_id offset l m f in
    let hdr = decode_packet_header bytes in
    let size : next - offset ≡ 34 + hdr.payload_size = omega (arith, is_next) in
    (
      ap validate_status is_packet ∙ same,
      λ valid. (
        full (ap validate_status (sym is_packet) ∙ valid) ∙ (λ i.
            (sym size i, out (sym valid i) (sym is_packet i).header (sym is_packet i).payload)),
        ap (λ n. drop n bytes) size ∙ drop_more hdr.payload_size 34 bytes ∙ sym is_rest,
      ),
    )

pub to_offline : Types.PacketHeader → PacketHeader
to_offline h = record {
  magic = h.magic;
  protocol_version = h.protocol_version;
  payload_version = h.payload_version;
  type = h.type;
  payload_size = h.payload_size;
  ts_ns = h.ts_ns;
  seq = h.seq;
  status_flags = h.status_flags;
  checksum = h.checksum;
}

decode-serialize_header :
    (h : Types.PacketHeader) (rest : List ℕ)
    → HeaderFits h
    → decode_packet_header (serialize_header h ++ rest) ≡ to_offline h
unfolding decode_packet_header to_offline
decode-serialize_header h rest f = ap to_offline (header_at-serialize_header h rest f)

parse_from_buffer-eq_ok :
    (bytes : List ℕ) (h : PacketHeader) (payload rest : List ℕ)
    → (34 ≤ length bytes) × (drop 34 bytes ≡ payload ++ rest)
    → decode_packet_header bytes ≡ h
    → (h.magic ≡ k_magic) × (h.protocol_version ≡ 1)
    → h.payload_size ≤ 8192
    → h.payload_size ≡ length payload
    → Offline.crc32 payload ≡ h.checksum
    → parse_from_buffer bytes ≡ (34 + length payload, out ok h payload)
unfolding parse_from_buffer
parse_from_buffer-eq_ok bytes h payload rest (l, e) d (m, v) fits size sum =
    rw (d, e, take-append h.payload_size payload rest size)
      (ground (
        arith,
        length-drop 34 bytes,
        ap (λ (t : List ℕ). length t) e,
        length-append payload rest,
        take_all h.payload_size payload size,
      ))

-- A packet that the runtime side serializes is taken by the parser of the offline side, whatever
-- follows it: the checksum of the one is that of the other.
pub parse_from_buffer-serialize_packet :
    (header : Types.PacketHeader) (payload rest : List ℕ)
    → HeaderFits (sealed_header header payload)
    → header.magic ≡ packet_magic
    → header.protocol_version ≡ 1
    → length payload ≤ 8192
    → All IsByte payload
    → parse_from_buffer (serialize_packet header payload ++ rest)
      ≡ (34 + length payload, out ok (to_offline (sealed_header header payload)) payload)
unfolding serialize_packet to_offline
parse_from_buffer-serialize_packet header payload rest f m v short bytes =
    parse_from_buffer-eq_ok whole (to_offline h) payload rest together decoded (m, v)
      (omega (arith, size)) size sum
  where
    h : Types.PacketHeader
    h = sealed_header header payload

    whole : List ℕ
    whole = (serialize_header h ++ payload) ++ rest

    split : whole ≡ serialize_header h ++ (payload ++ rest)
    split = append_assoc (serialize_header h) payload rest

    head_size : length (serialize_header h) ≡ 34
    head_size = length-encode_fields (header_fields h)

    together : (34 ≤ length whole) × (drop 34 whole ≡ payload ++ rest)
    together = (
      omega (
        arith,
        ap (λ (t : List ℕ). length t) split,
        length-append (serialize_header h) (payload ++ rest),
        head_size,
      ),
      ap (drop 34) split ∙ drop-append 34 (serialize_header h) (payload ++ rest) (sym head_size),
    )

    decoded : decode_packet_header whole ≡ to_offline h
    decoded = ap decode_packet_header split ∙ decode-serialize_header h (payload ++ rest) f

    size : (to_offline h).payload_size ≡ length payload
    size = unfold sealed_header to_offline in omega arith

    sum : Offline.crc32 payload ≡ (to_offline h).checksum
    sum = unfold sealed_header to_offline in offline_crc32-runtime_crc32 payload bytes
