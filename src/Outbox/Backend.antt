-- ===== src/Outbox/Backend.antt =====
-- The protocol `OutboxBackend` of outbox/backend.py, and the in-memory backend as one.
use agent_actum.Base.{ℕ, Option, List}
use agent_actum.Model.Exec.{Exec}
use agent_actum.Model.Host.{Host}
use agent_actum.Ledger.Models.{Ledger}
use agent_actum.Outbox.Models.{OutboxOperation, OutboxReleaseSummary}
use agent_actum.Outbox.Memory.{
  StageArguments, InMemoryOutboxBackend, stage, release, release_all, list_operations,
}

-- The protocol, over the state `S` of a backend.
pub record OutboxBackend (S : Type 0) : Type 0 where
  pub stage : StageArguments → Exec S OutboxOperation
  pub release : ℕ → Exec S OutboxOperation
  pub release_all : ℕ → Exec S OutboxReleaseSummary
  pub list_operations : Option ℕ → S → List OutboxOperation

unfoldable pub in_memory_outbox :
    {L : Type 0} → Host → Option (Ledger L) → OutboxBackend (InMemoryOutboxBackend L)
in_memory_outbox h ledger = record {
  stage = stage h ledger;
  release = release h ledger;
  release_all = release_all h ledger;
  list_operations = list_operations;
}
