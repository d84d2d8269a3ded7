-- ===== src/Runner.antt =====
-- internal/runner
pub mod Options
pub mod Backend
pub mod DryRun
pub mod HostJob
pub mod Docker
mod Samples
