-- ===== src/Validate.antt =====
-- offline/src/validate: the counts of a stream and its gaps in Streams, the ranges that are left in
-- Ranges; their laws in Accounts, Sound, Seen, Reports, Sequence and Clean.
pub mod Types
pub mod Streams
pub mod Accounts
pub mod Sound
pub mod Seen
pub mod Reports
pub mod Sequence
pub mod Ranges
pub mod Clean
mod Tests
