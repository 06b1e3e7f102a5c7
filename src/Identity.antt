-- ===== src/Identity.antt =====
-- internal/identity: who may log in, and the sessions.
pub mod Domain
pub mod Auth
