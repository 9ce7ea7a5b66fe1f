-- ===== src/Settings.antt =====
-- The settings: dashboard/src/modules/settings/pages/SettingsPage.tsx. Each child is about a part of
-- the page: the slugs (Slug), the tabs with the form for a workspace (Create), the members, and the
-- form for a password (Password).
pub mod Slug
pub mod Create
pub mod Members
pub mod Password
mod Tests
