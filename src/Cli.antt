-- ===== src/Cli.antt =====
-- cmd/mirror/main.go
pub mod Events
pub mod Vars
pub mod Program
pub mod Listing
pub mod Run
pub mod Main
mod Exit
mod Samples
