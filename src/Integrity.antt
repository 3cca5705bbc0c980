-- ===== src/Integrity.antt =====
-- runtimepc/src/session_integrity.cpp: the check of a recorded session, in Check; when it passes on
-- what the chunk writer has written, in Recorded, by Listed and Counts.
pub mod Check
pub mod Listed
pub mod Counts
pub mod Recorded
mod Tests
