-- ===== src/Executor.antt =====
-- internal/engine/executor.go, uses_step.go and composite_step.go: how a job runs.
mod Types
mod Machine
mod Uses
mod Reports
mod Steps
mod Composite
mod Started
mod Jobs
mod Frame
mod Outcome
mod Sequence
mod Redaction
mod Gives
mod Dry
mod Samples
unfoldable pub use Types.*
unfoldable pub use Machine.*
unfoldable pub use Uses.*
unfoldable pub use Reports.*
unfoldable pub use Steps.*
unfoldable pub use Composite.*
unfoldable pub use Started.*
unfoldable pub use Jobs.*
