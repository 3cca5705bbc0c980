-- ===== src/Frame.antt =====
-- The frames of the ego contract: the data stream of the SC589 board and the chunk files hold them
-- back to back.
pub mod Header
pub mod Layout
pub mod Io
pub mod Parse
pub mod Round
pub mod Walk
pub mod Corruption
pub mod Sample
mod Tests
