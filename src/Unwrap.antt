-- ===== src/Unwrap.antt =====
-- runtimepc/include/ego_runtime/sc589_unwrap.hpp: the stream unwrapper in Stream, its laws in Totality.
pub mod Stream
pub mod Totality
mod Tests
