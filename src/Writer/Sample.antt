-- ===== src/Writer/Sample.antt =====
-- A writer with a limit of 100 bytes for a chunk, and calls to run it on.
use local_pc.Common.{ℕ, ◌≡◌, refl, true, none, List, [], ◌∷◌}
use local_pc.Frame.Sample.{sample_frame}
use local_pc.Frame.Header.{decode_header}
use local_pc.Wire.{field, le_value}
use local_pc.Writer.Chunks.{
  write_contract_frame, rotate_if_needed, open_chunk, opened, put_frame, stream_write, next_chunk,
  flush, record_frame, append_contract_index, count_written, flush_if_due, RuntimeConfig, World,
  init,
}
use local_pc.Writer.Runs.{run}

abbrev pub small_config : RuntimeConfig
small_config = record {
  chunk_max_bytes = 100;
  chunk_max_sec = 3600;
  flush_packets = 1000;
  flush_interval_sec = 1;
}

-- A system that lets everything through, at a second past the start.
abbrev pub fine : World
fine = record {
  rotate_time = 1_000_000_000;
  rotate_flush_time = 1_000_000_000;
  open_time = 1_000_000_000;
  write_time = 1_000_000_000;
  flush_time = 1_000_000_000;
  open_ok = true;
  index_open_ok = true;
  rotate_flush_ok = true;
  flush_ok = true;
  write_fails = none;
  index_ok = true;
}

-- The second call fails, since the frame is too short.
abbrev pub calls : List (World × List ℕ)
calls = (fine, sample_frame) ∷ (fine, 1 ∷ 2 ∷ []) ∷ (fine, sample_frame) ∷ (fine, sample_frame) ∷ []

-- Two frames go to the first chunk, which is then past its limit, and the third to the next.
pub calls_write :
    (run (init small_config 0) calls).1 ≡ sample_frame ∷ sample_frame ∷ sample_frame ∷ []
unfolding run write_contract_frame rotate_if_needed open_chunk opened put_frame stream_write
    decode_header field le_value next_chunk flush record_frame append_contract_index count_written
    flush_if_due
calls_write = refl
