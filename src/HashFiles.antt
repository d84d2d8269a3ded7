-- ===== src/HashFiles.antt =====
-- internal/engine/hashfiles.go
pub mod Glob
pub mod Digest
mod Order
mod Samples
