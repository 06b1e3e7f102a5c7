-- ===== src/Student.antt =====
-- Students: internal/student. The records that administrators create, import and change.
pub mod Domain
pub mod Service
