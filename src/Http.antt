-- ===== src/Http.antt =====
-- apps/api/src/common and the token strategy: what stands between a request and a handler.
pub mod Rbac
pub mod Credentials
pub mod Errors
pub mod TenantSource
