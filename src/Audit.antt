-- ===== src/Audit.antt =====
-- apps/api/src/modules/audit: the append-only log of what was done in a tenant.
pub mod Event
pub mod Repository
pub mod Recording
