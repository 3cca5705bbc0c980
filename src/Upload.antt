-- ===== src/Upload.antt =====
-- offline/src/upload/s3_uploader.cpp: the gate and the files in Files, the transfer in Session; the laws in
-- Attempts and Outcomes.
pub mod Files
pub mod Session
pub mod Attempts
pub mod Outcomes
mod Tests
