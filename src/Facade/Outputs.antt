-- ===== src/Facade/Outputs.antt =====
-- The successful results of the calls of a protected function.
use agent_actum.Base.{◌≡◌, sym, ap, ◌∙◌, subst, ◌⊎◌, inl, inr, true, none, some, [], ◌∷◌, ◌++◌}
use agent_actum.Facade.PythonValues.{BoundArguments}
use agent_actum.Model.Json.{JsonObject}
use agent_actum.Model.Exec.{Result, ok, err}
use agent_actum.Model.Host.{Host, domain_name}
use agent_actum.Contracts.Registry.{RegisteredTool, get}
use agent_actum.Execution.Models.{ExecutionResult}
use agent_actum.Execution.Schema.{validate_against_schema}
use agent_actum.Execution.Runtime.Defs.{Handler, World}
use agent_actum.Execution.Runtime.Results.{Replayed}
use agent_actum.Execution.Runtime.Successes.Whole.{execute-Justified}
use agent_actum.Facade.{Protection, wrapper, bind_json_arguments}
use agent_actum.Facade.Calls.{wrapper-Executed}
use agent_actum.Facade.Protect.{AgentActum, FacadeState, runtime_of}
use agent_actum.Facade.Sessions.{registration, registered-eq}

module _ {L I : Type 0} (h : Host) (actum : AgentActum L I) (p : Protection)
    (function : Handler) where
  -- The function was called once and its output is the result's; or the result was stored.
  abbrev pub Delivered : FacadeState L I → JsonObject → World L I → ExecutionResult → Type 0
  Delivered u arguments w r =
      ((function arguments u.world.calls ≡ ok r.output)
        × (validate_against_schema h r.output p.contract.output_schema.document ≡ none)
        × (w.calls
            ≡ u.world.calls ++ record { tool_name = p.contract.name; arguments = arguments } ∷ []))
      ⊎ ((w.calls ≡ u.world.calls) × Replayed (runtime_of actum u.registry) r)

  pub call-Delivered :
      (u : FacadeState L I) (bound : Result BoundArguments) (arguments : JsonObject) (w : World L I)
      (r : ExecutionResult)
      → h.accept domain_name p.contract.name ≡ some p.contract.name
      → get p.contract.name u.registry ≡ ok (registration h actum p function)
      → bind_json_arguments bound ≡ ok arguments
      → wrapper h (runtime_of actum u.registry) p bound u.world ≡ (ok r, w)
      → r.succeeded ≡ true
      → Delivered u arguments w r
  call-Delivered u bound arguments w r accepted found is_bound e succeeded =
      let rt = runtime_of actum u.registry in
      elim (wrapper-Executed h rt p bound arguments u.world is_bound) [
        | inl quiet ↦
            let never : ok r ≡ err quiet.2.0 = sym (ap (λ q. q.0) e) ∙ quiet.2.1 in
            absurd (cc never)
        | inr (key, _, x) ↦
            elim (execute-Justified h rt x.action x.context x.before w r (sym x.ran ∙ e)
              succeeded) [
                | inr (same, stored) ↦ inr (same ∙ x.same_calls, stored)
                | inl (t, registered, a) ↦
                    let (name, tool) =
                      registered-eq h actum p function u.registry x.action.tool_name t accepted
                        found x.named registered in
                    inl (
                      sym (λ i. (tool i).handler (x.same_arguments i) (x.same_calls i)) ∙ a.output,
                      subst
                          (λ (q : RegisteredTool Handler).
                            validate_against_schema h r.output q.contract.output_schema.document
                            ≡ none)
                          tool a.output_valid,
                      a.invoked ∙ (λ i.
                          x.same_calls i
                          ++ record { tool_name = sym name i; arguments = x.same_arguments i }
                            ∷ []),
                    )
              ]
      ]
