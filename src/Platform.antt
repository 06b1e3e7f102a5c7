-- ===== src/Platform.antt =====
-- internal/platform: the rate limiter and the guards of the routes.
pub mod Ratelimit
pub mod Authn
