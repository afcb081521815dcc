-- ===== src/Ledger.antt =====
-- src/agentactum/ledger: the audit ledger's interface and the in-memory ledger.
pub mod Models
pub mod Memory
