-- ===== src/Writer/Chunks.antt =====
-- `ChunkWriter`. What the system answers during a call (clock, opening, writing) is a `World`. The files
-- are kept in the order of their chunk ids; a file is what its stream has taken. Names of files, the
-- text of the manifest and `fsync` are not modelled.
use local_pc.Common.{
  ℕ, ◌-◌, ◌/◌, Bool, true, false, ◌||◌, ◌&&◌, not, Option, none, some, List, [], ◌∷◌, ◌++◌, length,
  take, ltb, leb, ◌==◌, if◌then◌else◌, inc32, add64,
}
use local_pc.Frame.Header.{EgoFrameHeader, frame_magic, frame_header_size, decode_header}

pub record RuntimeConfig : Type 0 where
  pub chunk_max_bytes : ℕ
  pub chunk_max_sec : ℕ
  pub flush_packets : ℕ
  pub flush_interval_sec : ℕ

-- The name of the file is given by its chunk id.
pub record ChunkInfo : Type 0 where
  pub chunk_id : ℕ
  pub bytes : ℕ
  pub first_ts_ns : ℕ
  pub last_ts_ns : ℕ
  pub packet_count : ℕ

pub record IndexLine : Type 0 where
  pub offset : ℕ
  pub t0_ns : ℕ
  pub frame_type : ℕ
  pub seq : ℕ
  pub chunk_id : ℕ
  pub payload_size : ℕ

pub record World : Type 0 where
  -- The steady clock in nanoseconds, at each of its readings.
  pub rotate_time : ℕ
  pub rotate_flush_time : ℕ
  pub open_time : ℕ
  pub write_time : ℕ
  pub flush_time : ℕ
  -- Whether the chunk and the index can be opened, and whether flushes go through.
  pub open_ok : Bool
  pub index_open_ok : Bool
  pub rotate_flush_ok : Bool
  pub flush_ok : Bool
  -- `some n`: the write fails after `n` bytes.
  pub write_fails : Option ℕ
  pub index_ok : Bool

pub record ChunkWriter : Type 0 where
  pub config : RuntimeConfig
  -- `chunk_stream_`: `is_open()` and `good()`; the same of `index_stream_`.
  pub is_open : Bool
  pub good : Bool
  pub index_open : Bool
  pub index_good : Bool
  -- The files of the earlier chunks, and that of the current one, empty when there is none.
  pub earlier : List (List ℕ)
  pub file : List ℕ
  pub index : List IndexLine
  pub manifest : List ChunkInfo
  pub current_chunk_id : ℕ
  pub current_chunk_offset : ℕ
  pub current_chunk_bytes : ℕ
  pub packets_since_flush : ℕ
  pub last_flush_time : ℕ
  pub chunk_opened_at : ℕ
  pub total_bytes : ℕ
  pub total_packets : ℕ
  pub chunks : List ChunkInfo

abbrev pub init : RuntimeConfig → ℕ → ChunkWriter
init config now = record {
  config = config;
  is_open = false;
  good = true;
  index_open = false;
  index_good = true;
  earlier = [];
  file = [];
  index = [];
  manifest = [];
  current_chunk_id = 0;
  current_chunk_offset = 0;
  current_chunk_bytes = 0;
  packets_since_flush = 0;
  last_flush_time = now;
  chunk_opened_at = 0;
  total_bytes = 0;
  total_packets = 0;
  chunks = [];
}

abbrev new_info : ℕ → ChunkInfo
new_info chunk_id = record {
  chunk_id = chunk_id;
  bytes = 0;
  first_ts_ns = 0;
  last_ts_ns = 0;
  packet_count = 0;
}

-- `OpenChunk` when the file has been opened: the file is truncated.
unfoldable pub opened : ChunkWriter → World → ChunkWriter
opened w io = record w {
  is_open = true;
  good = true;
  index_open = w.index_open || io.index_open_ok;
  index_good = if w.index_open then w.index_good else io.index_open_ok;
  file = [];
  current_chunk_offset = 0;
  current_chunk_bytes = 0;
  chunk_opened_at = io.open_time;
  chunks = w.chunks ++ new_info w.current_chunk_id ∷ [];
}

unfoldable pub not_opened : ChunkWriter → ChunkWriter
not_opened w = record w { good = false }

-- Opening a stream that is open fails.
unfoldable pub open_chunk : ChunkWriter → World → ChunkWriter × Bool
unfolding opened not_opened
open_chunk w io = if not w.is_open && io.open_ok then (opened w io, true) else (not_opened w, false)

unfoldable pub flush : ChunkWriter → ℕ → Bool → ChunkWriter
flush w now flush_ok = record w {
  good = w.good && (not w.is_open || flush_ok);
  packets_since_flush = 0;
  last_flush_time = now;
  manifest = w.chunks;
}

-- Closing the stream and counting up the chunk id.
unfoldable pub next_chunk : ChunkWriter → ChunkWriter
next_chunk w = record w {
  is_open = false;
  earlier = w.earlier ++ w.file ∷ [];
  file = [];
  current_chunk_id = inc32 w.current_chunk_id;
}

-- Whole seconds between two readings of the clock.
abbrev seconds : ℕ → ℕ → ℕ
seconds now before = (now - before) / 1_000_000_000

unfoldable pub rotate_if_needed : ChunkWriter → World → ChunkWriter × Bool
unfolding open_chunk flush next_chunk
rotate_if_needed w io =
    if not w.is_open
    then open_chunk w io
    else if not (leb w.config.chunk_max_bytes w.current_chunk_bytes)
        && not (leb w.config.chunk_max_sec (seconds io.rotate_time w.chunk_opened_at))
    then (w, true)
    else open_chunk (next_chunk (flush w io.rotate_flush_time io.rotate_flush_ok)) io

abbrev pub index_line : EgoFrameHeader → ℕ → ℕ → IndexLine
index_line header offset chunk_id = record {
  offset = offset;
  t0_ns = header.t0_ns;
  frame_type = header.frame_type;
  seq = header.seq;
  chunk_id = chunk_id;
  payload_size = header.payload_size;
}

unfoldable pub append_contract_index : ChunkWriter → EgoFrameHeader → Bool → ChunkWriter
append_contract_index w header index_ok =
    if not w.index_good
    then w
    else if index_ok
    then record w {
      index = w.index ++ index_line header w.current_chunk_offset w.current_chunk_id ∷ [];
    }
    else record w { index_good = false }

-- The update of `chunks_.back()`.
unfoldable pub count_in_chunk : ChunkInfo → EgoFrameHeader → ℕ → ChunkInfo
count_in_chunk c header size = record c {
  bytes = add64 c.bytes size;
  packet_count = inc32 c.packet_count;
  first_ts_ns = if inc32 c.packet_count == 1 then header.t0_ns else c.first_ts_ns;
  last_ts_ns = header.t1_ns;
}

unfoldable pub count_in_last : List ChunkInfo → EgoFrameHeader → ℕ → List ChunkInfo
unfolding count_in_chunk
count_in_last [] header size = []
count_in_last (c ∷ []) header size = count_in_chunk c header size ∷ []
count_in_last (c ∷ d ∷ cs) header size = c ∷ count_in_last (d ∷ cs) header size

unfoldable pub count_written : ChunkWriter → EgoFrameHeader → List ℕ → ChunkWriter
count_written w header frame_bytes = record w {
  current_chunk_offset = add64 w.current_chunk_offset (length frame_bytes);
  current_chunk_bytes = add64 w.current_chunk_bytes (length frame_bytes);
  total_bytes = add64 w.total_bytes (length frame_bytes);
  total_packets = inc32 w.total_packets;
  chunks = count_in_last w.chunks header (length frame_bytes);
  packets_since_flush = inc32 w.packets_since_flush;
}

unfoldable pub flush_if_due : ChunkWriter → World → ChunkWriter
unfolding flush
flush_if_due w io =
    if leb w.config.flush_packets w.packets_since_flush
      || leb w.config.flush_interval_sec (seconds io.write_time w.last_flush_time)
    then flush w io.flush_time io.flush_ok
    else w

-- The write to the stream: all of the bytes, or some and then a failure. A stream that is not good
-- takes nothing.
unfoldable pub stream_write : ChunkWriter → Option ℕ → List ℕ → ChunkWriter
stream_write w write_fails frame_bytes = elim w.good [
  | false ↦ w
  | true ↦ elim write_fails [
    | none ↦ record w { file = w.file ++ frame_bytes }
    | some n ↦ record w { file = w.file ++ take n frame_bytes; good = false }
  ]
]

-- What follows a write that went through.
unfoldable pub record_frame : ChunkWriter → EgoFrameHeader → World → List ℕ → ChunkWriter
unfolding append_contract_index count_written flush_if_due
record_frame w header io frame_bytes =
    flush_if_due (count_written (append_contract_index w header io.index_ok) header frame_bytes) io

-- `WriteContractFrame` after the rotation.
unfoldable pub put_frame : ChunkWriter → World → List ℕ → ChunkWriter × Bool
unfolding stream_write record_frame
put_frame w io frame_bytes =
    let header = decode_header frame_bytes in
    let w' = stream_write w io.write_fails frame_bytes in
    if not (header.magic == frame_magic)
    then (w, false)
    else if not w'.good
    then (w', false)
    else (record_frame w' header io frame_bytes, true)

unfoldable pub write_contract_frame : ChunkWriter → World → List ℕ → ChunkWriter × Bool
write_contract_frame w io frame_bytes =
    let (w', rotated) = rotate_if_needed w io in
    if ltb (length frame_bytes) frame_header_size
    then (w, false)
    else if not rotated
    then (w', false)
    else put_frame w' io frame_bytes

unfoldable pub open_writer : ChunkWriter → World → ChunkWriter × Bool
open_writer w io = open_chunk w io

unfoldable pub close_writer : ChunkWriter → ℕ → Bool → ChunkWriter
unfolding flush
close_writer w now flush_ok = record (flush w now flush_ok) { is_open = false; index_open = false }
