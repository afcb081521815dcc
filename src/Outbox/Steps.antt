-- ===== src/Outbox/Steps.antt =====
-- Sequences of calls of the outbox, in the order in which its lock lets them in.
use agent_actum.Base.{ℕ, Option, List, [], ◌∷◌}
use agent_actum.Model.Exec.{bind_keeps, pure}
use agent_actum.Model.Host.{Host}
use agent_actum.Ledger.Models.{Ledger}
use agent_actum.Outbox.Models.{OutboxOperation}
use agent_actum.Outbox.Memory.{
  InMemoryOutboxBackend, StageArguments, stage, release, release_each, release_all,
  staged_operations,
}

module _ {L : Type 0} (h : Host) (ledger : Option (Ledger L)) where
  -- A call of the backend, and any sequence of calls, in the order of the lock.
  pub data Step : InMemoryOutboxBackend L → InMemoryOutboxBackend L → Type 0 where
    stages :
        (args : StageArguments) (s : InMemoryOutboxBackend L) → Step s (stage h ledger args s).1
    releases : (id : ℕ) (s : InMemoryOutboxBackend L) → Step s (release h ledger id s).1
    releases_all : (id : ℕ) (s : InMemoryOutboxBackend L) → Step s (release_all h ledger id s).1

  pub data Reach (s : InMemoryOutboxBackend L) : InMemoryOutboxBackend L → Type 0 where
    here : Reach s s
    next : {t u : InMemoryOutboxBackend L} → Reach s t → Step t u → Reach s u

  -- A property of the state that every release keeps, and one that every `stage` keeps too.
  module _ (P : InMemoryOutboxBackend L → Type 0)
      (by_release : (id : ℕ) (s : InMemoryOutboxBackend L)
        → P s
        → P (release h ledger id s).1) where
    pub release_each_keeps :
        (os : List OutboxOperation) (s : InMemoryOutboxBackend L)
        → P s
        → P (release_each h ledger os s).1
    unfolding release_each pure
    release_each_keeps [] s p = p
    release_each_keeps (o ∷ os) s p =
        bind_keeps P (release h ledger o.operation_id) _ (by_release o.operation_id)
          (λ result.
            bind_keeps P (release_each h ledger os) _ (release_each_keeps os) (λ others u q. q))
          s p

    release_all_keeps :
        (id : ℕ) (s : InMemoryOutboxBackend L) → P s → P (release_all h ledger id s).1
    unfolding release_all pure
    release_all_keeps id s =
        bind_keeps P (release_each h ledger (staged_operations h ledger id s)) _
          (release_each_keeps (staged_operations h ledger id s)) (λ sorted u p. p) s

    module _
        (by_stage : (args : StageArguments) (s : InMemoryOutboxBackend L)
          → P s
          → P (stage h ledger args s).1) where
      Step-keeps : {s t : InMemoryOutboxBackend L} → Step s t → P s → P t
      Step-keeps (stages args s) p = by_stage args s p
      Step-keeps (releases id s) p = by_release id s p
      Step-keeps (releases_all id s) p = release_all_keeps id s p

      pub Reach-keeps_all : {s t : InMemoryOutboxBackend L} → Reach s t → P s → P t
      Reach-keeps_all here p = p
      Reach-keeps_all (next run step) p = Step-keeps step (Reach-keeps_all run p)
