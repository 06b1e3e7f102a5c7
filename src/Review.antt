-- ===== src/Review.antt =====
-- internal/review: administrative decisions on enrollment requests.
pub mod Queue
pub mod Decide
