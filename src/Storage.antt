-- ===== src/Storage.antt =====
-- crates/mcptracer-storage: the rows of the store, and the trace files written from them.
pub mod Row
pub mod Mtrace
pub mod Export
pub mod Import
pub mod Vcr
pub mod Merge
