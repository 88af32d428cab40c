-- ===== src/Outbox.antt =====
-- The outbox: apps/api/src/modules/outbox.
pub mod Entry
pub mod Store
pub mod Processor
