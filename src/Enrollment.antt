-- ===== src/Enrollment.antt =====
-- internal/enrollment: the enrollment requests of students. `Status`, `Classify` and `Rules` are the
-- pure rules of domain/; their children state what the rules guarantee.
pub mod Status
pub mod Classify
pub mod Rules
pub mod Database
pub mod Submit
pub mod Cancel
pub mod Service
