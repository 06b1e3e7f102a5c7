-- ===== src/System.antt =====
-- The enrollment tables under the transactions of internal/enrollment and internal/review, run in
-- any order by any number of sessions.
pub mod Changes
pub mod Invariant
pub mod Reach
pub mod Idempotency
pub mod Resizing
