-- ===== src/Lib.antt =====
-- LocalPC records the frames of a measuring vehicle (runtimepc) and evaluates the recorded sessions
-- later (offline). This library models the parts on which the recordings stand or fall.
--
-- runtimepc receives packets of its own protocol, which a transport guard checks, and frames of the
-- ego contract, which are checked, buffered and written in chunks; a session is checked by a walk over
-- the written chunks. offline reads the chunks again and checks them with a checksum of its own.
--
-- Files, with the code that they are about:
-- - Common (Tests, Lists, Xor, Int, Words, Texts): no code of the program; Boolean tests, lists over native
--   numbers, the exclusive or, the integers of 32 and 64 bits, and texts.
-- - Crc.Runtime: `Crc32` of runtimepc/protocol/checksum.hpp. Crc.Offline: `crc32_table` and `crc32` of
--   offline/include/ego_offline/checksum.hpp. Crc.Step, Crc.Equivalence, Crc.Detection: their laws.
-- - Wire (Words, Structs): little-endian words and packed structs, the meaning of the `memcpy`s.
-- - Protocol.Types, Protocol.Serialization, Protocol.Validation, Protocol.Guard: types.hpp,
--   serialization.hpp, validation.hpp and transport_guard.hpp of runtimepc/protocol. A thrown exception
--   is the constructor `throw`. Protocol.RoundTrip and Protocol.Guard.Order: their laws.
-- - Frame.Header: the header of offline/include/ego_offline/ego_contract_protocol.hpp, which the runtime
--   side takes from the contract. Frame.Io: runtimepc/src/contract_frame_io.cpp; the handler is a
--   function on a state of its own. Frame.Layout, Frame.Parse, Frame.Round, Frame.Walk and
--   Frame.Corruption: their laws.
-- - Buffer.Packets: runtimepc/include/ego_runtime/packet_buffer.hpp. Buffer.Bounds, Buffer.Order and
--   Buffer.History: its limits, what a push drops, and whole runs.
-- - Session.Manager: runtimepc/src/session_manager.cpp. Session.States and Session.Runs: the machine of
--   its states and whole histories.
-- - Writer.Chunks and Writer.Print: runtimepc/src/chunk_writer.cpp. Writer.Steps: the ways that its
--   operations go, and the record `Kept` of what a law must show of each part to hold of the whole.
--   Writer.Runs: calls one after the other, and the record `Logged` for laws on the frames written so
--   far. Writer.Contents, Writer.Limits, Writer.Places and Writer.Index: the laws.
-- - Integrity.Check: runtimepc/src/session_integrity.cpp. Integrity.Listed, Integrity.Counts and
--   Integrity.Recorded: what passes of what the writer has written.
-- - Client.Receive: `ReadExact` and `ReceiveLoop` of runtimepc/src/contract_tcp_client.cpp. Client.Segments
--   and Client.Deliver: their laws.
-- - Service.Diagnostics: runtimepc/include/ego_runtime/diagnostics.hpp. Service.Track:
--   `TrackContractSeq` and the time gaps of runtimepc/src/runtime_service.cpp. Service.Runtime:
--   `StartRecording`, `StopRecording`, `DrainPacketBuffer` and `FinalizeActiveSession`. Service.Frames:
--   `OnContractFrame`. Service.Gaps, Service.Stopping, Service.FileMode, Service.Smooth,
--   Service.Drained and Service.FileInput: the laws, and in the last `ProcessFileInput`.
-- - Load.Packets, Load.Scan: the scans of offline/src/load/ego_log_reader.cpp and source_log_reader.cpp.
--   Load.Loop, Load.Visits, Load.History, Load.Sources: that they end, and what they give. Load.Frames
--   and Load.Recorded: they read what the writer has written.
-- - Parse.Binary: offline/src/parse/binary_parser.cpp. Parse.Agreement: its laws.
-- - Validate.Types, Validate.Streams, Validate.Ranges: offline/src/validate/log_validator.cpp, the
--   validation of a stream, the valid ranges and the verdict. Validate.Accounts, Validate.Sound,
--   Validate.Seen, Validate.Reports, Validate.Sequence and Validate.Clean: their laws.
-- - Unwrap.Stream: runtimepc/include/ego_runtime/sc589_unwrap.hpp. Unwrap.Totality: that its loops
--   end, and what they give.
-- - Upload.Files, Upload.Session: offline/src/upload/s3_uploader.cpp, the gate and the files, and the
--   upload. Upload.Attempts and Upload.Outcomes: their laws.
-- - Pipeline.Feed, Pipeline.Command: offline/src/pipeline/pipeline.cpp, the accumulator of a scan, and
--   `run_validate`. Pipeline.Counts, Pipeline.Losses, Pipeline.Near, Pipeline.Agreement,
--   Pipeline.Refused and Pipeline.Verdict: where it agrees with the validator. Pipeline.Numbers and
--   Pipeline.Recorded: a session that the writer has written. Pipeline.Exits: how the command exits.
-- - Json.Writer: offline/include/ego_offline/json_writer.hpp; Json.Reader: the strings of
--   json_reader.hpp. Json.Strings: their round trip.
-- - The modules Tests and Sample hold the runs on concrete inputs.
--
-- Numbers: an unsigned integer of w bits is a natural number; where the code adds or subtracts, the
-- wrap-around is written out (`% 2 ^ w`). A byte string is a list of numbers, and laws that need it ask
-- that each is below 256. Sums of sizes, which are `size_t`, do not wrap, since the byte strings are in
-- memory.
--
-- Fuel: the walk over a byte string takes one round of fuel for each byte and one more. Each round that
-- goes on passes at least the 72 bytes of a header, so this never runs out.
--
-- The scan of a chunk takes one round of fuel for each byte and one more, and each round reads a header.
-- The files that a scan opens are a function from their paths, which do not change during the scan; a
-- file that exists is taken to be one that can be opened.
--
-- The validator divides by the sample rate of an audio block; the division by zero is the result `none`.
-- Durations and the threshold of audio gaps are compared on floating point: these tests are parameters.
--
-- The loop of the unwrapper takes one round of fuel for each byte and one more; a round that goes on drops
-- a byte. The attempts to upload a file are as many as the code allows.
--
-- An upload sees the files of a directory as a function from their names, and the server's answers as a
-- function from the key, the bytes and the number of the attempt.
--
-- The system's answers during a call of the chunk writer (the clock, whether a file opens, how far a
-- write goes) are a record that the call takes, so that failures are covered. A file is what its stream has
-- taken; that the disk may be behind is not modelled.
--
-- The service is modelled as one operation after another. StartRecording and StopRecording hold its lock;
-- OnContractFrame does not, and a stop from another thread in its middle is not modelled. The wait for the
-- writer's thread in StopRecording is that thread's doing and changes nothing here.
--
-- Not modelled: the file system itself, sockets, processes, configuration and logs, which are I/O; the
-- vendored contract headers, whose checksum is a parameter of Frame; the writers of MDF4 and of reports;
-- the demuxers of the offline side; the alignment of times and the scenes; the printing of numbers; and
-- code on floating point.
pub mod Common
pub mod Crc
pub mod Wire
pub mod Protocol
pub mod Frame
pub mod Buffer
pub mod Session
pub mod Writer
pub mod Integrity
pub mod Client
pub mod Service
pub mod Load
pub mod Parse
pub mod Validate
pub mod Unwrap
pub mod Upload
pub mod Pipeline
pub mod Json
