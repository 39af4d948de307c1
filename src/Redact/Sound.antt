-- ===== src/Redact/Sound.antt =====
-- What the redactor stores passes the validator.
pub mod Schema
pub mod Message
pub mod Policy
