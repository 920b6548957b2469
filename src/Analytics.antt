-- ===== src/Analytics.antt =====
-- src/planter_telemetry/analytics: forecasts of when a planter's water or battery runs out.
pub mod Model
pub mod Series
pub mod Fit
pub mod Forecast
pub mod Alert
pub mod Store
pub mod Decision
pub mod Pass
pub mod Window
pub mod Service
pub mod Health
pub mod Notify
