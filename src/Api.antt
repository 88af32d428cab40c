-- ===== src/Api.antt =====
-- The HTTP endpoints: what a request goes through, and the controllers of apps/api/src/modules.
pub mod Calls
pub mod Organizations
pub mod Executions
pub mod Readings
pub mod Accounts
pub mod Access
