-- ===== src/Load.antt =====
-- offline/src/load: the reading of recorded chunks, packet by packet. The data in Packets, the scans in
-- Scan; the laws in Loop, Visits, History, Sources, Frames and Recorded.
pub mod Packets
pub mod Scan
pub mod Loop
pub mod Visits
pub mod History
pub mod Sources
pub mod Frames
pub mod Recorded
pub mod Sample
mod Tests
