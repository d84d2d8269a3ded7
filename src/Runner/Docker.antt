-- ===== src/Runner/Docker.antt =====
-- internal/runner/docker_backend.go
pub mod Names
pub mod Health
pub mod Service
pub mod Steps
pub mod Start
mod Waiting
mod Traced
mod Stopped
mod Covers
mod Serving
mod Release
mod Samples
