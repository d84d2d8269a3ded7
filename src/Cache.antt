-- ===== src/Cache.antt =====
-- internal/cacheserver
mod Defs
mod Find
mod Restore
pub mod Handlers
mod Samples
unfoldable pub use Defs.*
