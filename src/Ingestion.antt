-- ===== src/Ingestion.antt =====
-- src/planter_telemetry/ingestion: from an MQTT message to the rows of the database.
pub mod Core
pub mod Db
pub mod Handle
pub mod Session
pub mod Service
pub mod Health
