-- ===== src/Redact.antt =====
-- crates/mcptracer-redact: the redaction of stored payloads, and the validator that mirrors it.
pub mod Keys
pub mod Policy
pub mod Schema
pub mod Walk
pub mod Collect
pub mod Sound
pub mod Context
pub mod Lint
pub mod Envelope
