-- ===== src/Policies.antt =====
-- src/agentactum/policies: policy decisions, the policy engine and the policies that come with it.
pub mod Models
pub mod Engine
pub mod Rules
