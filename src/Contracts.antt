-- ===== src/Contracts.antt =====
-- src/agentactum/contracts: tool contracts, action intents and the tool registry.
pub mod Models
pub mod Registry
