-- ===== src/Execution/Runtime/AtMostOnce.antt =====
-- The runtime over the in-memory backend: runs with one key, one after another.
use agent_actum.Base.{ℕ, String, ◌≡◌, ◌≢◌, inl, inr, subst, true, Option, some, arith}
use agent_actum.Model.Json.{Value, JsonObject}
use agent_actum.Model.Exec.{ok}
use agent_actum.Model.Host.{Host}
use agent_actum.Contracts.Models.{ActionIntent}
use agent_actum.Idempotency.Models.{IdempotencyRecord, IdempotencyClaim}
use agent_actum.Idempotency.Memory.{
  InMemoryIdempotencyBackend, get_record, claim, mark_completed, in_memory_backend,
}
use agent_actum.Idempotency.Memory.Claims.{claim-Claimed}
use agent_actum.Idempotency.Memory.Runs.{claims, completes, Step-keeps, claim_held}
use agent_actum.Execution.Runtime.Defs.{Runtime, World}
use agent_actum.Execution.Runtime.Stages.{execute}
use agent_actum.Execution.Runtime.Admission.{run_from, execute-Gates}
use agent_actum.Execution.Runtime.Gates.{Acquired}
use agent_actum.Execution.Runtime.Records.{execute-Keeps}
use agent_actum.Execution.Runtime.Replay.{execute-Marks}

abbrev pub MemoryWorld : Type 0 → Type 0
MemoryWorld L = World L InMemoryIdempotencyBackend

abbrev pub MemoryRuntime : Type 0 → Type 0
MemoryRuntime L = Runtime L InMemoryIdempotencyBackend

-- The runtime with the in-memory backend in the place of its own.
abbrev pub on_memory : {L : Type 0} → Host → MemoryRuntime L → MemoryRuntime L
on_memory h rt = record rt { idempotency = in_memory_backend h }

abbrev pub HasRecord : String → InMemoryIdempotencyBackend → Type 0
HasRecord key i = (r : IdempotencyRecord) × (get_record key i ≡ some r)

-- Runs of `execute`, one after another, by any runtimes over one backend.
pub data Runs {L : Type 0} (h : Host) (w : MemoryWorld L) : MemoryWorld L → Type 0 where
  start : Runs h w w
  then_run :
      {u : MemoryWorld L} (rt : MemoryRuntime L) (a : ActionIntent) (ctx : JsonObject)
      → Runs h w u
      → Runs h w (execute h (on_memory h rt) a ctx u).1

module _ (h : Host) (key : String) where
  claim_keeps :
      (k : String) (i : InMemoryIdempotencyBackend)
      → HasRecord key i
      → HasRecord key (claim h k i).1
  claim_keeps k i (r, held) =
      let (r', held', _) = Step-keeps h key r (claims k i) held in (r', held')

  completion_keeps :
      (k : String) (token : ℕ) (reference : Option String) (result : Value)
      (i : InMemoryIdempotencyBackend)
      → HasRecord key i
      → HasRecord key (mark_completed h k token reference result i).1
  completion_keeps k token reference result i (r, held) =
      let (r', held', _) = Step-keeps h key r (completes k token reference result i) held in
      (r', held')

  claim_starts :
      (i i' : InMemoryIdempotencyBackend) (c : IdempotencyClaim)
      → claim h key i ≡ (ok c, i')
      → c.acquired ≡ true
      → HasRecord key i'
  claim_starts i i' c e got = (c.claimed, ground (arith, claim-Claimed h key i c i' e))

-- A run whose key has a record invokes no handler.
pub no_call_if_held :
    {L : Type 0} (h : Host) (rt : MemoryRuntime L) (a : ActionIntent) (ctx : JsonObject)
    (key : String) (w : MemoryWorld L)
    → a.idempotency_key ≡ some key
    → HasRecord key w.idempotency
    → (execute h (on_memory h rt) a ctx w).1.calls ≡ w.calls
unfolding in_memory_backend
no_call_if_held h rt a ctx key w given (r, held) = elim (execute-Gates h (on_memory h rt) a ctx w) [
  | inl quiet ↦ quiet
  | inr (g, once) ↦ absurd (
      refute (
        subst (λ k. Acquired h (on_memory h rt) (run_from h a ctx w.drawn) k w.idempotency) given
          g.acquired))
]
  where
    refute : Acquired h (on_memory h rt) (run_from h a ctx w.drawn) (some key) w.idempotency → ⊥
    refute (c, i', e, got) = ground (arith, claim_held h key w.idempotency r held)

-- Every run keeps the record of a key.
pub run_keeps :
    {L : Type 0} (h : Host) (rt : MemoryRuntime L) (a : ActionIntent) (ctx : JsonObject)
    (key : String) (w : MemoryWorld L)
    → HasRecord key w.idempotency
    → HasRecord key (execute h (on_memory h rt) a ctx w).1.idempotency
unfolding in_memory_backend
run_keeps h rt a ctx key w =
    (execute-Keeps h (on_memory h rt) (HasRecord key) (claim_keeps h key) (completion_keeps h key) a
        ctx).at
      w

Runs-keep :
    {L : Type 0} (h : Host) (key : String) {w u : MemoryWorld L}
    → Runs h w u
    → HasRecord key w.idempotency
    → HasRecord key u.idempotency
Runs-keep h key start held = held
Runs-keep h key (then_run {u} rt a ctx runs) held =
    run_keeps h rt a ctx key u (Runs-keep h key runs held)

-- A run with a key that has invoked a handler leaves a record of the key.
pub invoked-HasRecord :
    {L : Type 0} (h : Host) (rt : MemoryRuntime L) (a : ActionIntent) (ctx : JsonObject)
    (key : String) (w : MemoryWorld L)
    → a.idempotency_key ≡ some key
    → (execute h (on_memory h rt) a ctx w).1.calls ≢ w.calls
    → HasRecord key (execute h (on_memory h rt) a ctx w).1.idempotency
unfolding in_memory_backend
invoked-HasRecord h rt a ctx key w given invoked =
    elim ((execute-Marks h (on_memory h rt) (HasRecord key) key (claim_keeps h key)
        (completion_keeps h key) (claim_starts h key) a ctx given).at
      w) [ inl quiet ↦ absurd (invoked quiet) | inr held ↦ held ]

-- If a run with a key has invoked a handler, then after any further runs, of any runtimes over the
-- same in-memory backend, a run with the same key invokes no handler.
pub invoked_at_most_once :
    {L : Type 0} (h : Host) (rt rt' : MemoryRuntime L) (a a' : ActionIntent) (ctx ctx' : JsonObject)
    (key : String) (w : MemoryWorld L) {u : MemoryWorld L}
    → a.idempotency_key ≡ some key
    → a'.idempotency_key ≡ some key
    → (execute h (on_memory h rt) a ctx w).1.calls ≢ w.calls
    → Runs h (execute h (on_memory h rt) a ctx w).1 u
    → (execute h (on_memory h rt') a' ctx' u).1.calls ≡ u.calls
invoked_at_most_once h rt rt' a a' ctx ctx' key w {u} given given' invoked runs =
    no_call_if_held h rt' a' ctx' key u given'
      (Runs-keep h key runs (invoked-HasRecord h rt a ctx key w given invoked))
