-- ===== src/AdminUser.antt =====
-- Administrators: internal/adminuser.
pub mod Domain
pub mod Service
