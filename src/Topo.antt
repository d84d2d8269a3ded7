-- ===== src/Topo.antt =====
-- `TopoSortJobs` of internal/engine/workflow_run.go
mod Defs
mod Walks
pub mod Order
mod Errors
pub mod Samples
unfoldable pub use Defs.*
