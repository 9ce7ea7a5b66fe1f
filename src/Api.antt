-- ===== src/Api.antt =====
-- The API clients of the dashboard: dashboard/src/common/api.
pub mod Client
pub mod Endpoints
