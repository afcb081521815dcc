-- ===== src/Facade/Laws.antt =====
-- Repeated calls of a protected function under a contract that requires a key: the invocations.
use agent_actum.Base.{String, text_eq, ◌≡◌, ◌≢◌, ap, subst, ◌∙◌, sym, inl, inr, true, All}
use agent_actum.Facade.PythonValues.{BoundArguments}
use agent_actum.Model.Json.{JsonObject, get}
use agent_actum.Model.Exec.{Result, ok}
use agent_actum.Model.Host.{Host}
use agent_actum.Idempotency.Memory.{InMemoryIdempotencyBackend}
use agent_actum.Idempotency.Memory.Runs.{Step, Step-keeps}
use agent_actum.Execution.Runtime.AtMostOnce.{
  MemoryRuntime, MemoryWorld, on_memory, HasRecord, no_call_if_held, invoked-HasRecord,
}
use agent_actum.Facade.Calls.{wrapper-Executed}
use agent_actum.Facade.GivenKeys.{same_key}
use agent_actum.Facade.Kept.{Calls, Calls-keep}
use agent_actum.Facade.{Protection, wrapper, bind_json_arguments, key_fields}

-- A key that has a record keeps one.
Step-HasRecord :
    (h : Host) (key : String) (i j : InMemoryIdempotencyBackend)
    → Step h i j
    → HasRecord key i
    → HasRecord key j
Step-HasRecord h key i j step (r, held) =
    let (r', held', _) = Step-keeps h key r step held in (r', held')

-- Over the in-memory backend: if a call of a function that is protected under a contract which
-- requires a key has invoked a handler, then after any further calls of protected functions, a call
-- whose arguments agree with it on the fields of the key invokes no handler.
pub protected_once :
    {L : Type 0} (h : Host) (rt rt' : MemoryRuntime L) (p : Protection)
    (bound bound' : Result BoundArguments) (arguments arguments' : JsonObject) (w : MemoryWorld L)
    {u : MemoryWorld L}
    → p.contract.idempotency_key_required ≡ true
    → bind_json_arguments bound ≡ ok arguments
    → bind_json_arguments bound' ≡ ok arguments'
    → All (λ name. get name arguments ≡ get name arguments') (key_fields p)
    → (wrapper h (on_memory h rt) p bound w).1.calls ≢ w.calls
    → Calls h (wrapper h (on_memory h rt) p bound w).1 u
    → (wrapper h (on_memory h rt') p bound' u).1.calls ≡ u.calls
protected_once h rt rt' p bound bound' arguments arguments' w {u} required ok1 ok2 agree invoked
      calls =
    elim (wrapper-Executed h (on_memory h rt) p bound arguments w ok1) [
      | inl quiet ↦ absurd (invoked quiet.0)
      | inr (key, made, x) ↦ elim (wrapper-Executed h (on_memory h rt') p bound' arguments' u ok2) [
        | inl quiet ↦ quiet.0
        | inr (key', made', y) ↦
            let (s, is_s, is_s', _) =
              same_key h (on_memory h rt) (on_memory h rt') p arguments arguments' w u key key'
                required agree made made' x y in
            let held : HasRecord s (wrapper h (on_memory h rt) p bound w).1.idempotency =
              subst (λ q. HasRecord s q.1.idempotency) (sym x.ran)
                (invoked-HasRecord h rt x.action x.context s x.before is_s
                  (λ q. invoked (ap (λ q. q.1.calls) x.ran ∙ (q ∙ x.same_calls)))) in
            let kept =
              subst (HasRecord s) (sym y.same_records)
                (Calls-keep h (HasRecord s) (Step-HasRecord h s) calls held) in
            ap (λ q. q.1.calls) y.ran
            ∙ (no_call_if_held h rt' y.action y.context s y.before is_s' kept ∙ y.same_calls)
      ]
    ]
