-- ===== src/Tests.antt =====
-- Runs of the definitions on concrete inputs, and the theorems applied to them.
pub mod Fixtures
pub mod Requests
pub mod Reviews
pub mod Mail
pub mod Accounts
pub mod Windows
pub mod Queues
pub mod Students
pub mod Admins
pub mod Guards
pub mod Catalog
pub mod Backlog
pub mod Settings
