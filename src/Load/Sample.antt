-- ===== src/Load/Sample.antt =====
-- A small session that the writer has written.
use local_pc.Load.Recorded.{Stored}
use local_pc.Common.{[], none, refl, some, suc, zero, ◌++◌, ◌∷◌}
use local_pc.Writer.Chunks.{
  append_contract_index, count_written, flush, flush_if_due, init, next_chunk, open_chunk, opened,
  put_frame, record_frame, rotate_if_needed, stream_write, write_contract_frame,
}
use local_pc.Writer.Runs.{run}
use local_pc.Frame.Sample.{sample_frame}
use local_pc.Frame.Header.{decode_header}
use local_pc.Writer.Sample.{calls, small_config}
use local_pc.Writer.Places.{files}
use local_pc.Load.Packets.{Files, Manifest}
use local_pc.Wire.Structs.{field}
use local_pc.Wire.Words.{le_value}
use local_pc.Writer.Places

-- The writer's files under the paths 0 and 1.
abbrev pub sample_files : Files
sample_files [] = none
sample_files (zero ∷ path) = some (sample_frame ++ sample_frame)
sample_files (suc n ∷ path) = some sample_frame

abbrev pub sample_manifest : Manifest
sample_manifest = record {
  packet_count = 3;
  chunks = record { path = 0 ∷ []; chunk_id = 0 } ∷ record { path = 1 ∷ []; chunk_id = 1 } ∷ [];
}

pub stored :
    Stored sample_files sample_manifest.chunks (Places.files (run (init small_config 0) calls).0)
unfolding run write_contract_frame rotate_if_needed open_chunk opened put_frame stream_write
    decode_header field le_value next_chunk flush record_frame append_contract_index count_written
    flush_if_due
stored = (refl, (refl, tt))
