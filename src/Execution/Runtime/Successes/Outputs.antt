-- ===== src/Execution/Runtime/Successes/Outputs.antt =====
-- From the handler's call to a successful result: what becomes of the handler's output.
use agent_actum.Base.{
  String, ◌≡◌, sym, ap, ◌∙◌, subst, inl, inr, true, Option, none, List, [], ◌∷◌, ◌++◌, Bool-cases,
  Option-cases, arith,
}
use agent_actum.Model.Json.{Value, dumps}
use agent_actum.Model.Exec.{ok, ◌>>=◌, lift-eq-ok, Result-cases}
use agent_actum.Model.Host.{Host}
use agent_actum.Contracts.Models.{ToolContract}
use agent_actum.Contracts.Registry.{RegisteredTool}
use agent_actum.Idempotency.Models.{IdempotencyClaim}
use agent_actum.Execution.Models.{ExecutionResult, execution_result-IsCoherent}
use agent_actum.Execution.Schema.{validate_against_schema, json_or_raise}
use agent_actum.Execution.Runtime.Defs.{Call, Handler, Runtime, Run, checks_pass}
use agent_actum.Execution.Runtime.Invocation.{
  invoke, succeed, verify_postconditions, verify_output, run_handler,
}
use agent_actum.Execution.Runtime.Paths.{Still-draw_from, Still-lift, Everywhere}
use agent_actum.Execution.Runtime.Paths.Behind.{reject_output-by, handler_failed-by}
use agent_actum.Execution.Runtime.Successes.{
  OnSuccess, Succeeds, Succeeds-Steps, finished, Succeeds-FailRules,
}

module _ {L I : Type 0} (h : Host) (rt : Runtime L I) (run : Run) where
  -- `succeed` returns the handler's output as it is.
  abbrev Written : Value → OnSuccess
  Written raw c c' a = (c' ≡ c) × (a.output ≡ raw) × (dumps raw ≡ true)

  json_or_raise-ok :
      (path : String) (raw v : Value)
      → json_or_raise path raw ≡ ok v
      → (v ≡ raw) × (dumps raw ≡ true)
  json_or_raise-ok path raw v e = (ground arith, ground arith)

  module _ (claim : Option IdempotencyClaim) where
    succeed-Written :
        (raw : Value)
        → Everywhere h rt run (Succeeds h rt run (Written raw)) 1 (succeed h rt run claim raw)
    unfolding succeed
    succeed-Written raw =
        let steps = Succeeds-Steps h rt run (Written raw) in
        steps.after _ 1 _ _ (Still-draw_from h rt h.clock) λ at _ u _.
          steps.after _ 1 _ _ (Still-lift _)
            (λ output v0 v json.
              steps.after _ 1 _ _ (Still-lift _)
                (λ r w' t made.
                  steps.event 0 _ _ _ _
                    (λ _ s z a e _.
                      let (same, calls) = finished h rt run (Written raw) claim r s z a e in
                      let (out, good) =
                        json_or_raise-ok "$" raw output (lift-eq-ok _ v0 v output json) in
                      let (fields, _) =
                        execution_result-IsCoherent h _ r (lift-eq-ok _ w' t r made) in
                      (
                        calls,
                        ap (λ q. q.output) (sym same) ∙ (ap (λ q. q.output) fields ∙ out),
                        good,
                      ))
                    t)
                v)
            u

    abbrev Passed : ToolContract → Value → OnSuccess
    Passed contract raw c c' a =
        (checks_pass rt.postconditions run.action contract run.context c ≡ true)
        × Written raw c c' a

    verify_postconditions-Passed :
        (contract : ToolContract) (raw : Value)
        → Everywhere h rt run
            (Succeeds h rt run (Passed contract raw))
            1
            (verify_postconditions h rt run claim contract raw)
    unfolding verify_postconditions
    verify_postconditions-Passed contract raw w t a e s =
        elim (Bool-cases (checks_pass rt.postconditions run.action contract run.context w.calls)) [
          | inl good ↦ (good, succeed-Written raw w t a (rw good at e) s)
          | inr bad ↦
              reject_output-by h rt run claim (Succeeds h rt run (Passed contract raw))
                (Succeeds-FailRules h rt run (Passed contract raw) claim) 0 _ _ _ none raw w t a
                (rw bad at e) s
        ]

    abbrev Verified : ToolContract → Value → OnSuccess
    Verified contract raw c c' a =
        (validate_against_schema h raw contract.output_schema.document ≡ none)
        × Passed contract raw c c' a

    verify_output-Verified :
        (contract : ToolContract) (raw : Value)
        → Everywhere h rt run
            (Succeeds h rt run (Verified contract raw))
            1
            (verify_output h rt run claim contract raw)
    unfolding verify_output
    verify_output-Verified contract raw w t a e s =
        elim (Option-cases (validate_against_schema h raw contract.output_schema.document)) [
          | inl good ↦ (
            good,
            verify_postconditions-Passed contract raw w t a (rw (good, verify_output) at e) s,
          )
          | inr (m, bad) ↦
              reject_output-by h rt run claim (Succeeds h rt run (Verified contract raw))
                (Succeeds-FailRules h rt run (Verified contract raw) claim) 0 _ m _ _ raw w t a
                (rw (bad, verify_output) at e) s
        ]

  -- The one invocation of the run, whose output is the result's: it satisfies the output schema,
  -- and all postconditions passed.
  pub record Achieved (tool : RegisteredTool Handler) (calls calls' : List Call)
      (r : ExecutionResult) : Type 0 where
    pub output : tool.handler run.action.arguments calls ≡ ok r.output
    pub invoked :
        calls'
        ≡ calls
          ++ record { tool_name = run.action.tool_name; arguments = run.action.arguments } ∷ []
    pub output_valid :
        validate_against_schema h r.output tool.contract.output_schema.document ≡ none
    pub serialisable : dumps r.output ≡ true
    pub verified : checks_pass rt.postconditions run.action tool.contract run.context calls' ≡ true

  module _ (claim : Option IdempotencyClaim) (tool : RegisteredTool Handler) where
    pub run_handler-Achieved :
        Everywhere h rt run (Succeeds h rt run (Achieved tool)) 1 (run_handler h rt run claim tool)
    unfolding run_handler invoke ◌>>=◌
    run_handler-Achieved w t a e s =
        elim (Result-cases (tool.handler run.action.arguments w.calls)) [
          | inr (x, raised) ↦ absurd (
              handler_failed-by h rt run claim (Succeeds h rt run (λ _ _ _. ⊥))
                (Succeeds-FailRules h rt run (λ _ _ _. ⊥) claim) 0 _ t a (rw raised at e) s)
          | inl (raw, answered) ↦
              let (valid, (passed, (calls, out, good))) =
                verify_output-Verified claim tool.contract raw _ t a (rw answered at e) s in
              record {
                output = answered ∙ ap ok (sym out);
                invoked = calls;
                output_valid =
                    subst
                      (λ v. validate_against_schema h v tool.contract.output_schema.document ≡ none)
                      (sym out) valid;
                serialisable = subst (λ v. dumps v ≡ true) (sym out) good;
                verified =
                    subst
                      (λ c.
                        checks_pass rt.postconditions run.action tool.contract run.context c ≡ true)
                      (sym calls) passed;
              }
        ]
