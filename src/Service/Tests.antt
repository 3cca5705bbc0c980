-- ===== src/Service/Tests.antt =====
-- Sequence numbers with a gap and a late one.
use local_pc.Common.{◌++◌, ℕ, List, none, some, true, ◌≢◌, ◌⊎◌, ◌≡◌, refl, arith, false, [], ◌∷◌}
use local_pc.Service.Diagnostics as Diagnostics
use local_pc.Service.Diagnostics.{on_seq_gap, on_out_of_order}
use local_pc.Service.Track.{Tracker, track_contract_seq, track_all, reset}
use local_pc.Service.Gaps.{IsTracked, track_all-IsTracked}
use local_pc.Crc.Runtime.{crc32}
use local_pc.Wire.{field, le_value}
use local_pc.Frame.Header.{decode_header, type_code}
use local_pc.Frame.Sample.{sample_frame, sample_frame-IsFrame}
use local_pc.Session.Manager as Manager
use local_pc.Session.Manager.{
  no_scenario, recording, stopping, state_of, ok, not_recording, new_session, join_path,
}
use local_pc.Writer.Chunks as Chunks
use local_pc.Writer.Runs.{run}
use local_pc.Writer.Sample.{small_config, fine}
use local_pc.Service.Runtime.{Service, Moment, stop_recording}
use local_pc.Service.Stopping.{IsShut, stop_recording_lem}
use local_pc.Buffer.Packets.{PacketBuffer}
use local_pc.Writer.Chunks.{close_writer}
use local_pc.Service.Runtime.{end_recording}
use local_pc.Service.Smooth.{IsWritable, drain_calls}
use local_pc.Service.Drained.{end_recording-run}
use local_pc.Service.FileMode.{IsWriting, on_frames, writes, on_frames-run}

abbrev fresh : Tracker
fresh = record {
  diagnostics = Diagnostics.init;
  seq_initialized = false;
  last_seq = 0;
  seen_ts = false;
  last_ts_ns = 0;
}

-- Of 5, 6, 9, 7 the numbers 7 and 8 are counted as lost, and the 7 that comes late as out of order.
lost_of_run : (track_all (reset fresh) (5 ∷ 6 ∷ 9 ∷ 7 ∷ [])).diagnostics.packets_lost ≡ 2
unfolding track_all track_contract_seq reset on_seq_gap on_out_of_order
lost_of_run = refl

track_all-IsTracked_example : IsTracked 0 0 5 4 (track_all (reset fresh) (5 ∷ 6 ∷ 9 ∷ 7 ∷ []))
track_all-IsTracked_example =
    track_all-IsTracked fresh 5 (6 ∷ 9 ∷ 7 ∷ [])
      (omega arith, (omega arith, (omega arith, (omega arith, tt)))) (omega arith) (omega arith)

abbrev pub moment : Moment
moment = record {
  session_id = 49 ∷ [];
  utc_now = 50 ∷ [];
  now = 0;
  open_answer = fine;
  write_answer = λ n. fine;
  close_ok = true;
}

-- A service in the file mode whose session has begun, with a new writer.
abbrev pub writing : Service
unfolding Manager.start state_of new_session join_path
writing = record {
  config = record {
    auto_start_on_session_started = false;
    time_gap_threshold_ms = 50;
    packet_buffer_capacity = 16;
    packet_buffer_max_bytes = 4096;
    max_payload_bytes = 8192;
    default_scenario = no_scenario;
    chunks = small_config;
  };
  sessions = (Manager.start (Manager.init []) no_scenario [] (49 ∷ []) (50 ∷ [])).0;
  has_error_log = true;
  buffer = none;
  writer = some (Chunks.init small_config 0);
  tracker = fresh;
  sync_file_mode = true;
  finalize_in_progress = false;
  finished = [];
}

pub writing-IsWriting : IsWriting 8192 (Chunks.init small_config 0) writing
unfolding Manager.start state_of new_session join_path
writing-IsWriting = record { state = refl; mode = refl; writer = refl; limit = refl }

abbrev calls : List (Moment × List ℕ)
calls = (moment, sample_frame) ∷ (moment, sample_frame) ∷ []

pub not_the_end : (decode_header sample_frame).frame_type ≢ 900
unfolding decode_header field le_value
not_the_end = λ e. absurd (omega (arith, e))

on_frames-run_example :
    IsWriting 8192
      (run (Chunks.init small_config 0) (writes crc32 calls)).0
      (on_frames crc32 writing calls)
unfolding type_code
on_frames-run_example =
    on_frames-run crc32 8192 (Chunks.init small_config 0) writing calls
      ((sample_frame-IsFrame, not_the_end), ((sample_frame-IsFrame, not_the_end), tt))
      writing-IsWriting

stop_recording_lem_example :
    (((state_of writing.sessions ≡ recording) ⊎ (state_of writing.sessions ≡ stopping))
      × ((stop_recording writing [] moment).1 ≡ ok)
      × IsShut (stop_recording writing [] moment).0)
    ⊎ ((state_of writing.sessions ≢ recording)
        × (state_of writing.sessions ≢ stopping)
        × (stop_recording writing [] moment ≡ (writing, not_recording)))
unfolding writing
stop_recording_lem_example = stop_recording_lem writing [] moment refl

-- A service with a writer's thread and two packets in its buffer.
abbrev buffer_of_two : PacketBuffer
buffer_of_two = record {
  capacity_packets = 16;
  max_bytes = 4096;
  queue = sample_frame ∷ sample_frame ∷ [];
  total_bytes = 154;
  dropped = 0;
  degraded = false;
}

abbrev buffering : Service
unfolding writing
buffering = record writing { sync_file_mode = false; buffer = some buffer_of_two }

sample-IsWritable : IsWritable sample_frame
unfolding decode_header field le_value
sample-IsWritable = (omega arith, refl)

end_recording-run_example :
    ((run (Chunks.init small_config 0) (drain_calls moment.write_answer 0 buffer_of_two.queue)).1
      ≡ buffer_of_two.queue)
    × ((end_recording buffering [] moment).finished
        ≡ []
          ++ close_writer
              (run
                (Chunks.init small_config 0)
                (drain_calls moment.write_answer 0 buffer_of_two.queue)).0
              0
              true
            ∷ [])
unfolding buffering writing
end_recording-run_example =
    end_recording-run buffering [] moment buffer_of_two (Chunks.init small_config 0) refl refl refl
      (λ o. absurd (cc)) (λ i. (refl, refl, refl)) (sample-IsWritable, (sample-IsWritable, tt))
