-- ===== src/Facade/Replays.antt =====
-- Repeated calls of a protected function under a contract that requires a key: the results.
use agent_actum.Base.{
  String, ◌≡◌, ◌≢◌, ap, subst, ◌∙◌, sym, inl, inr, true, none, some, All, Option-cases,
}
use agent_actum.Facade.PythonValues.{BoundArguments}
use agent_actum.Model.Json.{JsonObject, get}
use agent_actum.Model.Exec.{Result, ok, err, Error}
use agent_actum.Model.Host.{Host, short_text}
use agent_actum.Contracts.Models.{ActionIntent}
use agent_actum.Idempotency.Models.{is_set}
use agent_actum.Idempotency.Memory.{get_record}
use agent_actum.Execution.Models.{ExecutionResult}
use agent_actum.Execution.Runtime.Defs.{decode_execution_result}
use agent_actum.Execution.Runtime.Stages.{execute}
use agent_actum.Execution.Runtime.AtMostOnce.{
  MemoryRuntime, MemoryWorld, on_memory, no_call_if_held, invoked-HasRecord,
}
use agent_actum.Execution.Runtime.StoredResults.{HoldsResult}
use agent_actum.Execution.Runtime.StoredRuns.{execute-stores}
use agent_actum.Execution.Runtime.ReplayedResults.{
  Step-freezes, Answer, Answer-intro, execute-replays,
}
use agent_actum.Facade.Calls.{wrapper-Executed}
use agent_actum.Facade.GivenKeys.{same_key}
use agent_actum.Facade.Kept.{Calls, Calls-keep}
use agent_actum.Facade.{Protection, wrapper, bind_json_arguments, key_fields}

module _ {L : Type 0} (h : Host) (rt : MemoryRuntime L) (a : ActionIntent) (ctx : JsonObject)
    (key : String) (w : MemoryWorld L) where
  -- A run that has invoked a handler had a free key.
  invoked-absent :
      a.idempotency_key ≡ some key
      → (execute h (on_memory h rt) a ctx w).1.calls ≢ w.calls
      → get_record key w.idempotency ≡ none
  invoked-absent given invoked = elim (Option-cases (get_record key w.idempotency)) [
    | inl absent ↦ absent
    | inr held ↦ absurd (invoked (no_call_if_held h rt a ctx key w given held))
  ]

  -- A run that has invoked a handler and returned has stored what it returned.
  invoked-HoldsResult :
      (t : MemoryWorld L) (r : ExecutionResult)
      → a.idempotency_key ≡ some key
      → h.accept short_text key ≡ some key
      → execute h (on_memory h rt) a ctx w ≡ (ok r, t)
      → t.calls ≢ w.calls
      → HoldsResult key (rt.model_dump r) t.idempotency
  invoked-HoldsResult t r given accepted e invoked =
      let called : (execute h (on_memory h rt) a ctx w).1.calls ≢ w.calls =
        λ q. invoked (ap (λ x. x.1.calls) (sym e) ∙ q) in
      elim (execute-stores h key accepted rt a ctx w t r given (invoked-absent given called) e) [
        | inl free ↦
            let (s, held) = invoked-HasRecord h rt a ctx key w given called in
            let never : none ≡ some s =
              sym free ∙ (ap (λ x. get_record key x.1.idempotency) (sym e) ∙ held) in
            cc
        | inr stored ↦ stored
      ]

raised-Answer :
    {S : Type 0} (r : ExecutionResult) (x : Result ExecutionResult × S) (e : Error)
    → x.0 ≡ err e
    → Answer r x
raised-Answer r (ok s, t) e raised = cc
raised-Answer r (err x, t) e raised = tt

-- Over the in-memory backend: if a call of a function that is protected under a contract which
-- requires a key has invoked a handler and returned a result, then after any further calls of
-- protected functions, a call whose arguments agree with it on the fields of the key, if it
-- returns, returns exactly that result or a failure; provided that the dump of the result is not
-- null and that pydantic reads it back, and that pydantic stores a text that it has stored before
-- as it is.
pub protected_replays :
    {L : Type 0} (h : Host) (rt rt' : MemoryRuntime L) (p : Protection)
    (bound bound' : Result BoundArguments) (arguments arguments' : JsonObject) (w t : MemoryWorld L)
    {u : MemoryWorld L} (r : ExecutionResult)
    → p.contract.idempotency_key_required ≡ true
    → bind_json_arguments bound ≡ ok arguments
    → bind_json_arguments bound' ≡ ok arguments'
    → All (λ name. get name arguments ≡ get name arguments') (key_fields p)
    → ((k s : String) → h.accept short_text k ≡ some s → h.accept short_text s ≡ some s)
    → is_set (rt.model_dump r) ≡ true
    → decode_execution_result rt' (rt.model_dump r) ≡ ok r
    → wrapper h (on_memory h rt) p bound w ≡ (ok r, t)
    → t.calls ≢ w.calls
    → Calls h t u
    → Answer r (wrapper h (on_memory h rt') p bound' u)
protected_replays h rt rt' p bound bound' arguments arguments' w t {u} r required ok1 ok2 agree
      stripped set read e invoked calls =
    elim (wrapper-Executed h (on_memory h rt) p bound arguments w ok1) [
      | inl quiet ↦ absurd (invoked (ap (λ q. q.1.calls) (sym e) ∙ quiet.0))
      | inr (key, made, x) ↦ elim (wrapper-Executed h (on_memory h rt') p bound' arguments' u ok2) [
        | inl quiet ↦ raised-Answer r _ quiet.2.0 quiet.2.1
        | inr (key', made', y) ↦
            let (k, given, given', (k0, accepted)) =
              same_key h (on_memory h rt) (on_memory h rt') p arguments arguments' w u key key'
                required agree made made' x y in
            let (rec, held, done, stored) =
              invoked-HoldsResult h rt x.action x.context k x.before t r given
                (stripped k0 k accepted) (sym x.ran ∙ e) (λ q. invoked (q ∙ x.same_calls)) in
            let kept =
              subst (λ i. get_record k i ≡ some rec) (sym y.same_records)
                (Calls-keep h (λ i. get_record k i ≡ some rec) (λ i j. Step-freezes h k rec done)
                  calls held) in
            Answer-intro r _ λ s v f.
              execute-replays h k rec done (subst (λ d. is_set d ≡ true) (sym stored) set) rt' r
                (subst (λ d. decode_execution_result rt' d ≡ ok r) (sym stored) read) y.action
                y.context y.before v s given' kept (sym y.ran ∙ f)
      ]
    ]
