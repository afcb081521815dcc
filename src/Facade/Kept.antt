-- ===== src/Facade/Kept.antt =====
-- What calls of protected functions keep.
use agent_actum.Base.{subst, sym, inl, inr}
use agent_actum.Facade.PythonValues.{BoundArguments}
use agent_actum.Model.Exec.{Result, Result-cases}
use agent_actum.Model.Host.{Host}
use agent_actum.Idempotency.Memory.{InMemoryIdempotencyBackend, in_memory_backend}
use agent_actum.Idempotency.Memory.Runs.{Step, claims, completes}
use agent_actum.Execution.Runtime.AtMostOnce.{MemoryRuntime, MemoryWorld, on_memory}
use agent_actum.Execution.Runtime.Records.{execute-Keeps}
use agent_actum.Facade.Calls.{wrapper-Executed, wrapper-refused}
use agent_actum.Facade.{Protection, wrapper, bind_json_arguments}

-- Calls of protected functions, one after another, over one in-memory backend.
pub data Calls {L : Type 0} (h : Host) (w : MemoryWorld L) : MemoryWorld L → Type 0 where
  no_more : Calls h w w
  then_call :
      {u : MemoryWorld L} (rt : MemoryRuntime L) (p : Protection) (bound : Result BoundArguments)
      → Calls h w u
      → Calls h w (wrapper h (on_memory h rt) p bound u).1

-- What every call of the backend keeps, is kept.
module _ {L : Type 0} (h : Host) (Inv : InMemoryIdempotencyBackend → Type 0)
    (keeps : (i j : InMemoryIdempotencyBackend) → Step h i j → Inv i → Inv j) where
  wrapper_keeps :
      (rt : MemoryRuntime L) (p : Protection) (bound : Result BoundArguments) (w : MemoryWorld L)
      → Inv w.idempotency
      → Inv (wrapper h (on_memory h rt) p bound w).1.idempotency
  unfolding in_memory_backend
  wrapper_keeps rt p bound w held = elim (Result-cases (bind_json_arguments bound)) [
    | inr (e, refused) ↦
        subst Inv (sym (wrapper-refused h (on_memory h rt) p bound e w refused).1) held
    | inl (arguments, bound_ok) ↦
        elim (wrapper-Executed h (on_memory h rt) p bound arguments w bound_ok) [
          | inl quiet ↦ subst Inv (sym quiet.1) held
          | inr (_, _, x) ↦
              subst (λ q. Inv q.1.idempotency) (sym x.ran)
                ((execute-Keeps h (on_memory h rt) Inv (λ k i. keeps _ _ (claims k i))
                    (λ k token reference result i. keeps _ _ (completes k token reference result i))
                    x.action x.context).at
                  x.before (subst Inv (sym x.same_records) held))
        ]
  ]

  pub Calls-keep : {w u : MemoryWorld L} → Calls h w u → Inv w.idempotency → Inv u.idempotency
  Calls-keep no_more held = held
  Calls-keep (then_call {u} rt p bound calls) held =
      wrapper_keeps rt p bound u (Calls-keep calls held)
