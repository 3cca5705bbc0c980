-- ===== src/Writer.antt =====
-- runtimepc/src/chunk_writer.cpp: the writer of frames into chunk files with an index, in Chunks; the
-- laws that its parts share in Steps; what the files hold in Contents; where the index points in Index.
pub mod Chunks
pub mod Steps
pub mod Runs
pub mod Contents
pub mod Limits
pub mod Places
pub mod Index
pub mod Print
pub mod Sample
mod Tests
