-- ===== src/Shared.antt =====
-- Code that every module of the backend uses: internal/shared/domain, internal/shared/audit and
-- internal/shared/reqmeta.
pub mod Shift
pub mod Audit
pub mod Paging
pub mod Validation
