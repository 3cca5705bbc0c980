-- ===== src/Buffer.antt =====
-- runtimepc/include/ego_runtime/packet_buffer.hpp: the bounded buffer between the receiver and the
-- writer, in Packets; its bounds in Bounds; what a push drops in Order; what a whole
-- run gives out in History.
pub mod Packets
pub mod Bounds
pub mod Order
pub mod History
mod Tests
