-- ===== src/Credentials.antt =====
-- internal/engine/credentials.go
mod Defs
pub mod Registry
mod Samples
unfoldable pub use Defs.*
