-- ===== src/Tests.antt =====
-- The theorems at concrete inputs, and runs of the definitions.
pub mod Streams
pub mod Sessions
pub mod Redaction
pub mod Pumps
mod Replay
mod Recording
mod Artifacts
