-- ===== src/Usage.antt =====
-- The usage pages: dashboard/src/modules/usage.
pub mod Clients
