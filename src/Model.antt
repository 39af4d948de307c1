-- ===== src/Model.antt =====
-- crates/mcptracer-model: the correlated view of one recorded session.
pub mod Session
pub mod Pending
pub mod Stats
pub mod Correlate
pub mod Validate
pub mod Plan
pub mod Serve
pub mod Eval
