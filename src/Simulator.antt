-- ===== src/Simulator.antt =====
-- src/planter_telemetry/simulator: the stream of imperfect messages.
pub mod Stream
pub mod Dynamics
pub mod Fleet
pub mod Publisher
pub mod Wire
