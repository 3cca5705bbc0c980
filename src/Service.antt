-- ===== src/Service.antt =====
-- runtimepc/src/runtime_service.cpp and diagnostics.hpp: the counters in Diagnostics; the tracking of the
-- frames' sequence numbers in Track and its laws in Gaps; the start and the stop of a recording in
-- Runtime and the handler of frames in Frames; their laws in Stopping, FileMode, Smooth
-- and Drained; the recording of a file in FileInput.
pub mod Diagnostics
pub mod Track
pub mod Gaps
pub mod Runtime
pub mod Frames
pub mod Stopping
pub mod FileMode
pub mod Smooth
pub mod Drained
pub mod FileInput
pub mod Tests
mod FileTests
