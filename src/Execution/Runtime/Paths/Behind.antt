-- ===== src/Execution/Runtime/Paths/Behind.antt =====
-- From the claim of the key to the end of the run.
use agent_actum.Base.{
  ◌≡◌, ℕ, suc, String, Bool, true, false, Option, none, some, inl, inr, Option-cases,
}
use agent_actum.Model.Json.{Value, null, JsonObject}
use agent_actum.Model.Exec.{Result, ok, err, Exec, lift-eq-ok, pure, ◌>>=◌, ◌>>◌}
use agent_actum.Model.Host.{Host}
use agent_actum.Contracts.Models.{ToolContract}
use agent_actum.Contracts.Registry.{RegisteredTool}
use agent_actum.Idempotency.Models.{IdempotencyClaim}
use agent_actum.Execution.Models.{ExecutionResult}
use agent_actum.Execution.Schema.{validate_against_schema}
use agent_actum.Execution.Runtime.Defs.{Handler, Runtime, World, Run, complete_claim, checks_pass}
use agent_actum.Execution.Runtime.Invocation.{
  invoke, succeed, reject_output, verify_postconditions, verify_output, handler_failed, handled,
  run_handler, fail_claimed, started, start, precondition_failed, check_preconditions,
}
use agent_actum.Execution.Runtime.Paths.{
  Still-draw_from, Still-lift, Built, Statement, Everywhere, Steps, execution_result-Built,
  failure-then, test_branches,
}

module _ {L I : Type 0} (h : Host) (rt : Runtime L I) (run : Run) (claim : Option IdempotencyClaim)
    (G : Statement h rt run) where
  -- The completion of the claim with a failure of the run, or with any result of it; and the
  -- handler's invocation.
  pub record FailRules : Type 1 where
    pub steps : Steps h rt run G
    pub finish :
        (n : ℕ) (r : ExecutionResult)
        → Built run r × (r.succeeded ≡ false)
        → Everywhere h rt run G n (complete_claim h rt claim r >> pure r)

  pub record FinishRules : Type 1 where
    pub steps : Steps h rt run G
    pub finish :
        (n : ℕ) (r : ExecutionResult)
        → Built run r
        → Everywhere h rt run G n (complete_claim h rt claim r >> pure r)

  pub record ClaimRules : Type 1 where
    pub finishing : FinishRules
    pub invoked :
        (n : ℕ) (tool : RegisteredTool Handler)
        (f : Result Value → Exec (World L I) ExecutionResult)
        → ((r : Result Value) → Everywhere h rt run G n (f r))
        → Everywhere h rt run G n (invoke h rt run tool >>= f)

  abbrev All : ℕ → Exec (World L I) ExecutionResult → Type 0
  All = Everywhere h rt run G

  abbrev pub failing : FinishRules → FailRules
  failing c = record { steps = c.steps; finish = λ n r b. c.finish n r b.0 }

  module _ (c : FailRules) (n : ℕ) where
    pub reject_output-by :
        (code message event_type : String) (details : Option JsonObject) (raw : Value)
        → All (suc n) (reject_output h rt run claim code message event_type details raw)
    unfolding reject_output
    reject_output-by code message event_type details raw =
        failure-then h rt run code message _ _ (suc n) _ c.steps
          λ r built. c.steps.event n _ _ _ _ λ _. c.finish n r built

    pub handler_failed-by : All (suc n) (handler_failed h rt run claim)
    unfolding handler_failed
    handler_failed-by =
        failure-then h rt run _ _ _ _ (suc n) _ c.steps
          λ r built. c.steps.event n _ _ _ _ λ _. c.finish n r built

    pub fail_claimed-by : (code message : String) → All n (fail_claimed h rt run claim code message)
    unfolding fail_claimed
    fail_claimed-by code message =
        failure-then h rt run code message null none n _ c.steps λ r built. c.finish n r built

    pub precondition_failed-by : All (suc n) (precondition_failed h rt run claim)
    unfolding precondition_failed
    precondition_failed-by = c.steps.event n _ _ _ _ λ _. fail_claimed-by _ _

  module _ (c : FinishRules) (n : ℕ) where
    succeed-by : (raw : Value) → All (suc n) (succeed h rt run claim raw)
    unfolding succeed
    succeed-by raw = c.steps.after _ _ _ _ (Still-draw_from h rt h.clock) λ at _ u _.
        c.steps.after _ _ _ _ (Still-lift _)
          (λ output _ v _.
            c.steps.after _ _ _ _ (Still-lift _)
              (λ r w' t made.
                c.steps.event n _ _ _ _
                  (λ _.
                    c.finish n r
                      (execution_result-Built h rt run true at output none (some true) r
                        (lift-eq-ok _ w' t r made)).0)
                  t)
              v)
          u

    verify_postconditions-by :
        (contract : ToolContract) (raw : Value)
        → All (suc n) (verify_postconditions h rt run claim contract raw)
    unfolding verify_postconditions
    verify_postconditions-by contract raw w =
        test_branches (G (suc n) w)
          (checks_pass rt.postconditions run.action contract run.context w.calls) _ _
          (succeed-by raw w) (reject_output-by (failing c) n _ _ _ none raw w)

    verify_output-by :
        (contract : ToolContract) (raw : Value)
        → All (suc n) (verify_output h rt run claim contract raw)
    unfolding verify_output
    verify_output-by contract raw w =
        elim (Option-cases (validate_against_schema h raw contract.output_schema.document)) [
          | inl good ↦ rw (good, verify_output) (verify_postconditions-by contract raw w)
          | inr (m, bad) ↦ rw (bad, verify_output) (reject_output-by (failing c) n _ m _ _ raw w)
        ]

    pub handled-by :
        (contract : ToolContract) (r : Result Value)
        → All (suc n) (handled h rt run claim contract r)
    handled-by contract (ok raw) = verify_output-by contract raw
    handled-by contract (err _) = handler_failed-by (failing c) n

  module _ (c : ClaimRules) (n : ℕ) where
    run_handler-by : (tool : RegisteredTool Handler) → All (suc n) (run_handler h rt run claim tool)
    unfolding run_handler
    run_handler-by tool = c.invoked (suc n) tool _ λ r. handled-by c.finishing n tool.contract r

    started-by :
        (tool : RegisteredTool Handler) (taken : Bool)
        → All (suc n) (started h rt run claim tool taken)
    started-by tool true = run_handler-by tool
    started-by tool false = fail_claimed-by (failing c.finishing) (suc n) _ _

    -- At most two events are left when the preconditions are checked.
    pub check_preconditions-by :
        (tool : RegisteredTool Handler)
        → All (suc (suc n)) (check_preconditions h rt run claim tool)
    unfolding check_preconditions start
    check_preconditions-by tool w =
        test_branches (G (suc (suc n)) w)
          (checks_pass rt.preconditions run.action tool.contract run.context w.calls) _ _
          (c.finishing.steps.event (suc n) _ _ _ _ (started-by tool) w)
          (precondition_failed-by (failing c.finishing) (suc n) w)
