-- ===== src/Client.antt =====
-- runtimepc/src/contract_tcp_client.cpp: the client of the frame stream, in Receive; reading from a
-- stream in segments, in Segments; that the segments do not matter, in Deliver.
pub mod Receive
pub mod Segments
pub mod Deliver
mod Tests
