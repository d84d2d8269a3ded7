-- ===== src/Concurrency.antt =====
-- internal/engine/concurrency_scheduler.go
mod Defs
mod Queue
mod Preempt
mod Samples
unfoldable pub use Defs.*
