-- ===== src/Idempotency.antt =====
-- src/agentactum/idempotency: claims on idempotency keys.
pub mod Models
pub mod Memory
pub mod Keys
