-- ===== src/Shell.antt =====
-- The shell around the pages: dashboard/src/modules/shell.
pub mod Routing
pub mod Workspaces
pub mod Dashboard
pub mod CommandPalette
