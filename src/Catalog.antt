-- ===== src/Catalog.antt =====
-- internal/catalog: the administration of groups.
pub mod Capacity
pub mod Admin
pub mod Browse
