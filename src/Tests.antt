-- ===== src/Tests.antt =====
-- The properties at concrete inputs.
pub mod Fixtures
pub mod Contract
pub mod Ingestion
pub mod Session
pub mod Analytics
pub mod Simulator
pub mod Pass
pub mod Window
pub mod Codecs
pub mod Cli
pub mod Polling
pub mod Migrations
pub mod Publishing
pub mod Sample
pub mod Pipeline
