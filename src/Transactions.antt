-- ===== src/Transactions.antt =====
-- transactions/: the snapshots of a transaction, and their status machine.
pub mod Models
pub mod Laws
pub mod Runs
mod Tests
