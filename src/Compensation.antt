-- ===== src/Compensation.antt =====
-- src/agentactum/compensation: best-effort compensation of completed effects, in reverse order.
pub mod Models
pub mod Coordinator
pub mod Attempts
pub mod Order
pub mod Summary
pub mod Refusals
mod Tests
