-- ===== src/Pipeline.antt =====
-- offline/src/pipeline/pipeline.cpp, the validation: the accumulator in Feed, the command in Command; the
-- laws in Verdict, Recorded and Exits, by the steps in the others.
pub mod Feed
pub mod Command
pub mod Counts
pub mod Losses
pub mod Near
pub mod Agreement
pub mod Refused
pub mod Verdict
pub mod Numbers
pub mod Recorded
pub mod Exits
mod Tests
