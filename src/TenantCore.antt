-- ===== src/TenantCore.antt =====
-- apps/api/src/modules/tenant-core: organizations, which are the tenants.
pub mod Slug
pub mod Plan
pub mod Organization
pub mod Repository
pub mod Commands
