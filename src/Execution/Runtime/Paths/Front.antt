-- ===== src/Execution/Runtime/Paths/Front.antt =====
-- From the start of the run to the claim of the key.
use agent_actum.Base.{
  ◌≡◌, refl, ℕ, suc, String, inl, inr, Bool, true, false, ◌&&◌, is_none, Option-cases,
}
use agent_actum.Model.Enums.{is_deny}
use agent_actum.Model.Json.{dict}
use agent_actum.Model.Exec.{Result, ok, err, Exec}
use agent_actum.Model.Host.{Host}
use agent_actum.Contracts.Models.{action_matches_contract}
use agent_actum.Contracts.Registry.{RegisteredTool, get}
use agent_actum.Policies.Models.{PolicyDecision}
use agent_actum.Execution.Models.{ExecutionResult}
use agent_actum.Execution.Schema.{validate_against_schema}
use agent_actum.Execution.Runtime.Defs.{Handler, Runtime, World, Run}
use agent_actum.Execution.Runtime.Stages.{
  claim_key, key_missing, require_key, approval_missing, approved, obey, consult, input_invalid,
  validate_input, mismatch, match_contract, unknown, resolved, received, receive,
}
use agent_actum.Execution.Runtime.Invocation.{fail}
use agent_actum.Execution.Runtime.Paths.{
  Still-with_draws, Statement, Everywhere, Rules, failure-ends, test_branches,
}

module _ {L I : Type 0} (h : Host) (rt : Runtime L I) (run : Run) (G : Statement h rt run)
    (rules : Rules h rt run G) (n : ℕ)
    (claimed_by : (tool : RegisteredTool Handler)
      → get run.action.tool_name rt.registry ≡ ok tool
      → Everywhere h rt run G (suc n) (claim_key h rt run tool run.action.idempotency_key)) where
  abbrev All : ℕ → Exec (World L I) ExecutionResult → Type 0
  All = Everywhere h rt run G

  fail-by : (k : ℕ) (code message : String) → All k (fail h rt run code message)
  fail-by k code message = failure-ends h rt run code message _ _ k rules

  module _ (tool : RegisteredTool Handler)
      (registered : get run.action.tool_name rt.registry ≡ ok tool) where
    require_key-by : All (suc n) (require_key h rt run tool)
    unfolding require_key key_missing
    require_key-by w =
        test_branches (G (suc n) w)
          (tool.contract.idempotency_key_required && is_none run.action.idempotency_key) _ _
          (rules.steps.event n _ _ _ _ (λ _. fail-by n _ _) w) (claimed_by tool registered w)

    obey-by : (d : PolicyDecision) → All (suc n) (obey h rt run tool d)
    unfolding obey approval_missing
    obey-by d w =
        test_branches (G (suc n) w) (is_deny d.decision_type) _ _ (fail-by (suc n) _ _ w) (
          test_branches (G (suc n) w) (approved h rt run tool.contract d) _ _ (require_key-by w)
            (rules.steps.event n _ _ _ _ (λ _. fail-by n _ _) w))

    consult-by : All (suc (suc (suc n))) (consult h rt run tool)
    unfolding consult
    consult-by = rules.steps.event (suc (suc n)) _ _ _ _ λ _.
        rules.steps.after _ (suc (suc n)) _ _ (Still-with_draws h rt _)
          λ d _ u _. rules.steps.event (suc n) _ _ _ _ (λ _. obey-by d) u

    validate_input-by : All (suc (suc (suc n))) (validate_input h rt run tool)
    unfolding validate_input input_invalid
    validate_input-by w =
        elim (Option-cases (
          validate_against_schema h (dict run.action.arguments)
            tool.contract.input_schema.document)) [
              | inl good ↦ rw (good, validate_input) (consult-by w)
              | inr (m, bad) ↦
                  rw (bad, validate_input)
                    (rules.steps.event (suc (suc n)) _ _ _ _ (λ _. fail-by (suc (suc n)) _ m) w)
            ]

    match_contract-by : All (suc (suc (suc n))) (match_contract h rt run tool)
    unfolding match_contract mismatch
    match_contract-by w =
        test_branches (G (suc (suc (suc n))) w) (action_matches_contract run.action tool.contract) _
          _ (validate_input-by w)
          (rules.steps.event (suc (suc n)) _ _ _ _ (λ _. fail-by (suc (suc n)) _ _) w)

  resolved-by :
      (r : Result (RegisteredTool Handler))
      → get run.action.tool_name rt.registry ≡ r
      → All (suc (suc (suc n))) (resolved h rt run r)
  unfolding unknown
  resolved-by (ok tool) registered = match_contract-by tool registered
  resolved-by (err x) _ =
      rules.steps.after _ _ _ _ (Still-with_draws h rt _)
        λ d _ u _. rules.steps.event (suc (suc n)) _ _ _ _ (λ _. fail-by (suc (suc n)) _ _) u

  received-by : (taken : Bool) → All (suc (suc (suc n))) (received h rt run taken)
  received-by true = resolved-by (get run.action.tool_name rt.registry) refl
  received-by false = fail-by _ _ _

  -- Three events are written in front of the claim's own.
  pub receive-by : All (suc (suc (suc (suc n)))) (receive h rt run)
  unfolding receive
  receive-by = rules.steps.event (suc (suc (suc n))) _ _ _ _ received-by
