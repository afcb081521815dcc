-- ===== src/Outbox.antt =====
-- src/agentactum/outbox: operations staged behind a commit.
pub mod Models
pub mod Memory
pub mod Backend
pub mod Releases
pub mod Entries
pub mod Steps
pub mod Once
pub mod Batch
mod Tests
