-- ===== src/Workflows.antt =====
-- The workflow pages: dashboard/src/modules/workflows.
pub mod Versions
pub mod Compare
pub mod Table
