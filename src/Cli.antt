-- ===== src/Cli.antt =====
-- src/planter_telemetry/cli: capture a window of telemetry to a file, and replay one.
pub mod Schedule
pub mod Command
pub mod Records
pub mod Capture
pub mod Replay
pub mod Sample
pub mod Main
