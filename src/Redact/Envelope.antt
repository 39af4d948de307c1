-- ===== src/Redact/Envelope.antt =====
-- What masking leaves of the members that the protocol reads: the id, the method, the presence of a
-- result or an error. The keys of these members are not sensitive here.
pub mod Fields
pub mod Observe
