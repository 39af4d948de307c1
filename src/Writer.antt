-- ===== src/Writer.antt =====
-- crates/mcptracer-proxy/src/session_writer.rs: the bounded queue to the storage writer, and the
-- pump that forwards frames and records them.
pub mod Budget
pub mod Pump
pub mod Command
pub mod Reorder
pub mod Thread
