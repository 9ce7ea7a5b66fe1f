-- ===== src/Overview.antt =====
-- The overview page: dashboard/src/modules/overview.
pub mod Anomalies
pub mod Status
