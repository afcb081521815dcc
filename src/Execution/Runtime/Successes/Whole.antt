-- ===== src/Execution/Runtime/Successes/Whole.antt =====
-- Whole runs that return a result with `succeeded`.
use agent_actum.Base.{
  suc, ℕ, String, ◌≡◌, refl, sym, ap, ◌∙◌, ◌⊎◌, inl, inr, Bool, true, false, Option, none, some,
  ◌&&◌,
}
use agent_actum.Model.Json.{JsonObject}
use agent_actum.Model.Exec.{ok}
use agent_actum.Model.Host.{Host}
use agent_actum.Contracts.Models.{ActionIntent}
use agent_actum.Contracts.Registry.{RegisteredTool, get}
use agent_actum.Idempotency.Models.{IdempotencyClaim, is_completed, is_set}
use agent_actum.Execution.Models.{ExecutionResult}
use agent_actum.Execution.Runtime.Defs.{
  Handler, Runtime, World, Run, checks_pass, decode_execution_result,
}
use agent_actum.Execution.Runtime.Invocation.{started, start, check_preconditions}
use agent_actum.Execution.Runtime.Stages.{replay, claimed, claim_from_backend, claim_key, execute}
use agent_actum.Execution.Runtime.Admission.{run_from, execute-receive}
use agent_actum.Execution.Runtime.Paths.{Statement, Everywhere, Rules, failure-ends, test_branches}
use agent_actum.Execution.Runtime.Paths.Front.{receive-by}
use agent_actum.Execution.Runtime.Paths.Behind.{FailRules, fail_claimed-by, precondition_failed-by}
use agent_actum.Execution.Runtime.Results.{Replayed, decoded}
use agent_actum.Execution.Runtime.Successes.{
  OnSuccess, Succeeds, Succeeds-bind, Succeeds-FailRules, Succeeds-Rules,
}
use agent_actum.Execution.Runtime.Successes.Outputs.{Achieved, run_handler-Achieved}

module _ {L I : Type 0} (h : Host) (rt : Runtime L I) (run : Run) where
  -- What a successful result rests on: the invocation of the registered tool, or a stored result.
  abbrev pub Justified : OnSuccess
  Justified c c' a =
      ((tool : RegisteredTool Handler) × (get run.action.tool_name rt.registry ≡ ok tool)
        × Achieved h rt run tool c c' a)
      ⊎ ((c' ≡ c) × Replayed rt a)

  abbrev Sound : Statement h rt run
  Sound = Succeeds h rt run Justified

  abbrev rules : Rules h rt run Sound
  rules = Succeeds-Rules h rt run Justified

  replay-Sound :
      (n : ℕ) (c : IdempotencyClaim) → Everywhere h rt run Sound (suc n) (replay h rt run c)
  unfolding replay
  replay-Sound n c = rules.steps.event n _ _ _ _ λ _ u.
      test_branches (Sound n u) (is_completed c.claimed.status && is_set c.claimed.result)
        (decode_execution_result rt c.claimed.result, u) _
        (λ t a e _. inr (
          ap (λ q. q.1.calls) (sym e),
          (c.claimed.result, decoded rt c.claimed.result a (ap (λ q. q.0) e)),
        ))
        (failure-ends h rt run _ _ _ _ n rules u)

  module _ (tool : RegisteredTool Handler)
      (registered : get run.action.tool_name rt.registry ≡ ok tool) where
    module _ (claim : Option IdempotencyClaim) where
      abbrev fails : FailRules h rt run claim Sound
      fails = Succeeds-FailRules h rt run Justified claim

      started-Sound :
          (taken : Bool) → Everywhere h rt run Sound 1 (started h rt run claim tool taken)
      started-Sound true =
          λ w t a e s. inl (tool, registered, run_handler-Achieved h rt run claim tool w t a e s)
      started-Sound false = fail_claimed-by h rt run claim Sound fails 1 _ _

      check_preconditions-Sound :
          Everywhere h rt run Sound 2 (check_preconditions h rt run claim tool)
      unfolding check_preconditions start
      check_preconditions-Sound w =
          test_branches (Sound 2 w)
            (checks_pass rt.preconditions run.action tool.contract run.context w.calls) _ _
            (rules.steps.event 1 _ _ _ _ started-Sound w)
            (precondition_failed-by h rt run claim Sound fails 1 w)

    claim_key-Sound :
        (key : Option String) → Everywhere h rt run Sound 2 (claim_key h rt run tool key)
    unfolding claim_key
    claim_key-Sound none w = check_preconditions-Sound none w
    claim_key-Sound (some key) w =
        Succeeds-bind h rt run Justified (claim_from_backend h rt run key) (claimed h rt run tool) w
          refl
          λ c u _.
            test_branches (Sound 2 u) c.acquired (check_preconditions h rt run (some c) tool u) _
              (check_preconditions-Sound (some c) u) (replay-Sound 1 c u)

-- A result with `succeeded` that `execute` returns is the output of the handler of the registered
-- tool, invoked exactly once with the action's arguments, where the output satisfies the contract's
-- output schema, can be written as JSON, and all postconditions passed after the invocation; or no
-- handler was invoked, and pydantic has read the result from a stored value.
pub execute-Justified :
    {L I : Type 0} (h : Host) (rt : Runtime L I) (action : ActionIntent) (context : JsonObject)
    (w w' : World L I) (r : ExecutionResult)
    → execute h rt action context w ≡ (ok r, w')
    → r.succeeded ≡ true
    → Justified h rt (run_from h action context w.drawn) w.calls w'.calls r
execute-Justified h rt action context w w' r e succeeded =
    let run = run_from h action context w.drawn in
    receive-by h rt run (Sound h rt run) (rules h rt run) 1
      (λ tool registered. claim_key-Sound h rt run tool registered action.idempotency_key) _ w' r
      (sym (execute-receive h rt action context w) ∙ e) succeeded
