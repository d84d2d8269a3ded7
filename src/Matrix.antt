-- ===== src/Matrix.antt =====
-- internal/engine/matrix.go
mod Defs
mod Product
mod Include
mod Samples
unfoldable pub use Defs.*
