-- ===== src/Protocol.antt =====
-- runtimepc/protocol: the packets of the SC589 stream, their checks and the sequence guard.
pub mod Types
pub mod Serialization
pub mod RoundTrip
pub mod Validation
pub mod Guard
mod Tests
