-- ===== src/Cli.antt =====
-- internal/cli and cmd/main.go: RunApp, which wires the subsystems, and the command line.
pub mod Registration
pub mod Wiring
pub mod Transport
pub mod Exclusion
pub mod App
pub mod Command
pub mod Flags
mod Tests
