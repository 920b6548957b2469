-- ===== src/Migrations.antt =====
-- src/planter_telemetry/migrations/versions and migrate.py.
pub mod Views
pub mod Startup
