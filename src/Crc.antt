-- ===== src/Crc.antt =====
-- The CRC-32 of the repository, in the two forms that it is implemented in, and their laws.
pub mod Runtime
pub mod Offline
pub mod Step
pub mod Equivalence
pub mod Detection
mod Tests
