-- ===== src/Execution.antt =====
-- src/agentactum/execution: the single-action runtime.
pub mod Models
pub mod Schema
pub mod Runtime
