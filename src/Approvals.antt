-- ===== src/Approvals.antt =====
-- src/agentactum/approvals.
pub mod Models
