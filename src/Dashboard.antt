-- ===== src/Dashboard.antt =====
-- apps/api/src/modules/dashboard: the counts of a tenant and its series of days.
pub mod Percentage
pub mod Calendar
pub mod Metrics
pub mod Series
