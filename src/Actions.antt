-- ===== src/Actions.antt =====
-- internal/actions
pub mod Resolve
pub mod Metadata
pub mod Install
mod Samples
