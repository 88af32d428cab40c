-- ===== src/Kernel.antt =====
-- libs/shared-kernel/src: the base classes and types that every bounded context uses.
pub mod Tenancy
pub mod Json
pub mod Entity
pub mod Pagination
pub mod Repository
pub mod Context
