-- ===== src/Commands.antt =====
-- internal/commands
pub mod Files
pub mod Annotations
pub mod Legacy
pub mod FileSets
mod Samples
