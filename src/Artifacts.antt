-- ===== src/Artifacts.antt =====
-- internal/artifactserver: the store of artifacts and the handlers on it.
mod Disk
mod Handlers
mod Uploads
mod Deletion
mod Below
mod Guard
mod Samples
unfoldable pub use Disk.*
unfoldable pub use Handlers.*
