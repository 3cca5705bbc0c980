-- ===== src/Load/Scan.antt =====
-- `EgoLogReader::scan` and `SourceLogReader::scan`: chunk after chunk, packet after packet, to a handler
-- on a state of its own, whose `false` asks to stop.
use local_pc.Common.{
  ℕ, zero, suc, ◌+◌, ◌%◌, ◌^◌, Bool, true, false, ◌||◌, not, Option, none, some, List, [], ◌∷◌,
  length, take, drop, ltb, ◌==◌, if◌then◌else◌,
}
use local_pc.Wire.{field}
use local_pc.Frame.Header.{frame_magic, decode_header}
use local_pc.Load.Packets.{
  RawPacket, ChunkInfo, Manifest, Files, PacketHeader, decode_packet_header, no_header,
  no_contract_header, k_magic,
}

-- `EgoBinFormat`
pub data Format : Type 0 where
  unknown legacy contract : Format

-- A magic that is cut off by the end of the file is not one of the two.
unfoldable pub detect_format : Option (List ℕ) → Format
detect_format none = unknown
detect_format (some bytes) =
    if field 4 0 bytes == frame_magic
    then contract
    else if field 4 0 bytes == k_magic
    then legacy
    else unknown

-- What the body of a loop makes of the bytes that are left, before it calls the handler: it breaks off,
-- passes a packet over, or has a packet; with the bytes behind the packet and their offset.
pub data Fetched : Type 0 where
  break : Fetched
  skip : List ℕ → ℕ → Fetched
  packet : RawPacket → List ℕ → ℕ → Fetched

unfoldable pub legacy_packet : PacketHeader → List ℕ → ℕ → ℕ → RawPacket
legacy_packet hdr body chunk_id offset = record {
  header = hdr;
  contract_header = no_contract_header;
  is_contract = false;
  payload = take hdr.payload_size body;
  chunk_id = chunk_id;
  file_offset = offset;
}

-- The body of the loop of `scan_legacy_chunk`.
unfoldable pub fetch_legacy : ℕ → List ℕ → ℕ → Fetched
unfolding legacy_packet
fetch_legacy chunk_id bytes offset =
    let hdr = decode_packet_header bytes in
    if ltb (length bytes) 34 || not (hdr.magic == k_magic)
    then break
    else if ltb (length (drop 34 bytes)) hdr.payload_size
    then break
    else packet (legacy_packet hdr (drop 34 bytes) chunk_id offset)
        (drop hdr.payload_size (drop 34 bytes)) (offset + 34 + hdr.payload_size)

unfoldable pub contract_packet : List ℕ → ℕ → ℕ → RawPacket
contract_packet bytes chunk_id offset =
    let hdr = decode_header bytes in
    record {
      header = record no_header {
        ts_ns = hdr.t0_ns;
        seq = hdr.seq % 2 ^ 32;
        type = hdr.frame_type % 2 ^ 16;
        payload_size = hdr.payload_size;
      };
      contract_header = hdr;
      is_contract = true;
      payload = take hdr.payload_size (drop 72 bytes);
      chunk_id = chunk_id;
      file_offset = offset;
    }

-- The body of the loop of `scan_contract_chunk`.
unfoldable pub fetch_contract : ℕ → List ℕ → ℕ → Fetched
unfolding contract_packet
fetch_contract chunk_id bytes offset =
    let hdr = decode_header bytes in
    if ltb (length bytes) 72 || not (hdr.magic == frame_magic)
    then break
    else if ltb (length (drop 72 bytes)) hdr.payload_size
    then break
    else packet (contract_packet bytes chunk_id offset) (drop hdr.payload_size (drop 72 bytes))
        (offset + 72 + hdr.payload_size)

-- The body of the loop of `SourceLogReader::scan`: a packet of another type is passed over by a seek,
-- which may go behind the end of the file.
unfoldable pub fetch_source : ℕ → List ℕ → ℕ → Fetched
unfolding legacy_packet
fetch_source chunk_id bytes offset =
    let hdr = decode_packet_header bytes in
    if ltb (length bytes) 34 || not (hdr.magic == k_magic)
    then break
    else if ltb hdr.type 101 || ltb 199 hdr.type
    then skip (drop hdr.payload_size (drop 34 bytes)) (offset + 34 + hdr.payload_size)
    else if ltb (length (drop 34 bytes)) hdr.payload_size
    then break
    else packet (legacy_packet hdr (drop 34 bytes) chunk_id offset)
        (drop hdr.payload_size (drop 34 bytes)) (offset + 34 + hdr.payload_size)

module _ {ℓ} {S : Type ℓ} (handler : S → RawPacket → S × Bool) where
  -- The loop over a chunk, on fuel: `none` means that the fuel ran out. Each round reads a header, so one
  -- round for each byte, and one to leave, are enough. The Boolean is `false` if the handler has
  -- refused.
  unfoldable pub loop : (List ℕ → ℕ → Fetched) → ℕ → List ℕ → ℕ → S → Option (S × Bool)
  loop fetch zero bytes offset s = none
  loop fetch (suc fuel) bytes offset s = elim (fetch bytes offset) [
    | break ↦ some (s, true)
    | skip rest next ↦ loop fetch fuel rest next s
    | packet p rest next ↦
        let (s', go_on) = handler s p in
        elim go_on [ true ↦ loop fetch fuel rest next s' | false ↦ some (s', false) ]
  ]

  unfoldable pub scan_legacy_chunk : List ℕ → ℕ → S → Option (S × Bool)
  scan_legacy_chunk bytes chunk_id s = loop (fetch_legacy chunk_id) (suc (length bytes)) bytes 0 s

  unfoldable pub scan_contract_chunk : List ℕ → ℕ → S → Option (S × Bool)
  scan_contract_chunk bytes chunk_id s =
      loop (fetch_contract chunk_id) (suc (length bytes)) bytes 0 s

  unfoldable pub scan_source_chunk : List ℕ → ℕ → S → Option (S × Bool)
  scan_source_chunk bytes chunk_id s = loop (fetch_source chunk_id) (suc (length bytes)) bytes 0 s

  -- The choice by the format; one that is unknown is looked for in the chunk itself.
  unfoldable pub scan_chunk : Format → List ℕ → ℕ → S → Option (S × Bool)
  scan_chunk contract bytes chunk_id s = scan_contract_chunk bytes chunk_id s
  scan_chunk legacy bytes chunk_id s = scan_legacy_chunk bytes chunk_id s
  scan_chunk unknown bytes chunk_id s = elim (detect_format (some bytes)) [
    | contract ↦ scan_contract_chunk bytes chunk_id s
    | _ ↦ scan_legacy_chunk bytes chunk_id s
  ]

  -- `EgoLogReader::scan` on the format of the reader. A handler that refuses ends its chunk only.
  unfoldable pub scan_chunks : Files → Format → List ChunkInfo → S → Option S
  scan_chunks files format [] s = some s
  scan_chunks files format (c ∷ chunks) s = elim (files c.path) [
    | none ↦ scan_chunks files format chunks s
    | some bytes ↦ elim (scan_chunk format bytes c.chunk_id s) [
      | none ↦ none
      | some (s', _) ↦ scan_chunks files format chunks s'
    ]
  ]

  -- `SourceLogReader::scan`. A handler that refuses ends the whole scan.
  unfoldable pub scan_sources : Files → List ChunkInfo → S → Option S
  scan_sources files [] s = some s
  scan_sources files (c ∷ chunks) s = elim (files c.path) [
    | none ↦ scan_sources files chunks s
    | some bytes ↦ elim (scan_source_chunk bytes c.chunk_id s) [
      | none ↦ none
      | some (s', go_on) ↦ elim go_on [ true ↦ scan_sources files chunks s' | false ↦ some s' ]
    ]
  ]

-- The constructor of `EgoLogReader`: the format of the first chunk.
unfoldable pub format_of : Files → Manifest → Format
unfolding detect_format
format_of files m = elim m.chunks [ [] ↦ unknown | c ∷ _ ↦ detect_format (files c.path) ]

unfoldable pub scan {ℓ} :
    {S : Type ℓ} → Files → Manifest → (S → RawPacket → S × Bool) → S → Option S
scan files m handler s = scan_chunks handler files (format_of files m) m.chunks s

-- The handler of `verify_packet_count`.
unfoldable pub count_packet : ℕ → RawPacket → ℕ × Bool
count_packet n p = (n + 1, true)

-- `verify_packet_count`: the count, and whether it is that of the manifest.
unfoldable pub verify_packet_count : Files → Manifest → Option (ℕ × Bool)
verify_packet_count files m = elim (scan files m count_packet 0) [
  | none ↦ none
  | some n ↦ some (n, m.packet_count == 0 || n == m.packet_count)
]
