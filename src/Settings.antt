-- ===== src/Settings.antt =====
-- Global settings: internal/settings, and the allow-list that logins read from them.
pub mod Service
