-- ===== src/Workflow.antt =====
-- internal/engine/workflow.go
mod Dynamic
mod Types
mod Decode
unfoldable pub use Dynamic.*
pub use Types.*
unfoldable pub use Decode.*
