-- ===== src/Contract.antt =====
-- src/planter_telemetry/contract.py: the topic tree, and the reading that travels on it.
pub mod Topic
pub mod Reading
