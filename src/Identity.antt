-- ===== src/Identity.antt =====
-- apps/api/src/modules/identity: users, who are global, and their sessions.
pub mod Email
pub mod User
pub mod UserRepository
pub mod Register
pub mod Authenticate
