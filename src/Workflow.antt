-- ===== src/Workflow.antt =====
-- Workflows: apps/api/src/modules/workflow.
pub mod Definition
pub mod Execution
pub mod Repositories
pub mod Commands
