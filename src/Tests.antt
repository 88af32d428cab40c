-- ===== src/Tests.antt =====
-- Concrete runs of the code, and the theorems at concrete inputs.
pub mod Fixtures
pub mod TenantCore
pub mod Identity
pub mod Outbox
pub mod Workflow
pub mod Triggers
pub mod Events
pub mod Audit
pub mod Dashboard
pub mod Bootstrap
pub mod Api
