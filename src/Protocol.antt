-- ===== src/Protocol.antt =====
-- crates/mcptracer-protocol: messages, stdio frames and the decoder of server-sent events.
pub mod Message
pub mod Stdio
pub mod Sse
