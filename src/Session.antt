-- ===== src/Session.antt =====
-- runtimepc/src/session_manager.cpp and its header: the session that is recorded, in Manager; the
-- machine of its states in States, and whole histories in Runs.
pub mod Manager
pub mod States
pub mod Runs
mod Tests
