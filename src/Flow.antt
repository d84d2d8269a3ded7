-- ===== src/Flow.antt =====
-- `RunWorkflow` of internal/engine/workflow_run.go.
mod Combos
mod Defs
mod Slots
mod Moves
mod Parallel
pub mod Fates
pub mod Order
pub mod Samples
unfoldable pub use Combos.*
unfoldable pub use Defs.*
