-- ===== src/Monitoring.antt =====
-- What watches over a running server: the health report, and the watchdog that restarts it.
pub mod HealthCheck
pub mod Logger
pub mod Watchdog
