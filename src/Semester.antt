-- ===== src/Semester.antt =====
-- internal/semester: the semesters and their life cycle.
pub mod Service
