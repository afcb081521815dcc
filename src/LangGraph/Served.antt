-- ===== src/LangGraph/Served.antt =====
-- What LangGraph gets from a tool of the adapter.
use agent_actum.Base.{
  String, text_eq, ◌≡◌, refl, sym, ap, ◌∙◌, subst, ◌⊎◌, inl, inr, true, false, some, Bool-cases,
}
use agent_actum.Facade.PythonValues.{BoundArguments}
use agent_actum.Model.Json.{Value, JsonObject}
use agent_actum.Model.Exec.{Result, ok, ok_injective, Result-cases}
use agent_actum.Model.Host.{Host, domain_name}
use agent_actum.Contracts.Registry.{get}
use agent_actum.Execution.Models.{ExecutionResult}
use agent_actum.Execution.Runtime.Defs.{Handler}
use agent_actum.Facade.{Protection, wrapper, bind_json_arguments}
use agent_actum.Facade.Protect.{
  AgentActum, FacadeState, Protected, runtime_of, call_protected, protect,
}
use agent_actum.Facade.Sessions.{Session, Session-keeps, protect-registers, registration}
use agent_actum.Facade.Outputs.{Delivered, call-Delivered}
use agent_actum.LangGraph.{
  LangGraphReturnMode, result, output, serialize_result, return_mode, Tool, tool_wrapper,
  protect_tool,
}

module _ {L I : Type 0} (h : Host) (actum : AgentActum L I) (p : Protection)
    (function : Handler) where
  -- A tool that was made has a mode, and wraps the protected function.
  protect_tool-wraps :
      (mode : String) (s t : FacadeState L I) (tool : Tool L I)
      → protect_tool h actum p mode function s ≡ (ok tool, t)
      → (m : LangGraphReturnMode) × (return_mode mode ≡ ok m)
        × ((callable : Protected L I) × (protect h actum p function s ≡ (ok callable, t))
            × (tool ≡ tool_wrapper actum m callable))
  unfolding protect_tool
  protect_tool-wraps mode s t tool e = elim (Result-cases (return_mode mode)) [
    | inr (x, unknown) ↦ let e' = rw unknown at e in cc
    | inl (m, known) ↦
        let e' = rw known at e in
        elim (Result-cases (protect h actum p function s).0) [
          | inr (x, refused) ↦ let e'' = rw refused at e' in cc
          | inl (callable, made) ↦
              let e'' = rw made at e' in
              (
                m,
                known,
                (
                  callable,
                  λ i. (made i, ap (λ q. q.1) e'' i),
                  sym (ok_injective (ap (λ q. q.0) e'')),
                ),
              )
        ]
  ]

  -- The value that LangGraph gets for a result: of a failure the whole dump.
  abbrev pub Shown : LangGraphReturnMode → Value → ExecutionResult → Type 0
  Shown result v r = v ≡ actum.model_dump r
  Shown output v r = v ≡ r.output

  abbrev pub Served :
      LangGraphReturnMode → FacadeState L I → JsonObject → Value → FacadeState L I → Type 0
  Served m u arguments v u' =
      (r : ExecutionResult) × (((r.succeeded ≡ false) × (v ≡ actum.model_dump r))
        ⊎ ((r.succeeded ≡ true)
            × Shown m v r
            × Delivered h actum p function u arguments u'.world r))

  serialize_result-Shown :
      (m : LangGraphReturnMode) (r : ExecutionResult)
      → r.succeeded ≡ true
      → Shown m (serialize_result actum.model_dump r m) r
  unfolding serialize_result
  serialize_result-Shown result r s = refl
  serialize_result-Shown output r s = rw s refl

  serialize_result-failed :
      (m : LangGraphReturnMode) (r : ExecutionResult)
      → r.succeeded ≡ false
      → serialize_result actum.model_dump r m ≡ actum.model_dump r
  unfolding serialize_result
  serialize_result-failed result r s = refl
  serialize_result-failed output r s = rw s refl

  call-Served :
      (m : LangGraphReturnMode) (u u' : FacadeState L I) (bound : Result BoundArguments)
      (arguments : JsonObject) (v : Value)
      → h.accept domain_name p.contract.name ≡ some p.contract.name
      → get p.contract.name u.registry ≡ ok (registration h actum p function)
      → bind_json_arguments bound ≡ ok arguments
      → tool_wrapper actum m (call_protected h actum p) bound u ≡ (ok v, u')
      → Served m u arguments v u'
  unfolding tool_wrapper call_protected
  call-Served m u u' bound arguments v accepted found is_bound e =
      let x = wrapper h (runtime_of actum u.registry) p bound u.world in
      elim (Result-cases x.0) [
        | inr (y, raised) ↦ let e' = rw raised at e in cc
        | inl (r, returned) ↦
            let e' = rw returned at e in
            let value : serialize_result actum.model_dump r m ≡ v =
              ok_injective (ap (λ q. q.0) e') in
            elim (Bool-cases r.succeeded) [
              | inr failed ↦ (r, inl (failed, sym value ∙ serialize_result-failed m r failed))
              | inl succeeded ↦ (
                r,
                inr (
                  succeeded,
                  subst (λ q. Shown m q r) value (serialize_result-Shown m r succeeded),
                  subst (λ q. Delivered h actum p function u arguments q r) (ap (λ q. q.1.world) e')
                      (call-Delivered h actum p function u bound arguments x.1 r accepted found
                        is_bound (λ i. (returned i, x.1)) succeeded),
                ),
              )
            ]
      ]

  -- Once `protect_tool` has returned a tool, its return mode is one of the two; and after any
  -- further functions have been protected and called, whatever value the tool returns for arguments
  -- that convert to JSON values is the dump of a result without `succeeded`, or shows, by the mode,
  -- the output or the dump of a result with it. The output is then what one invocation of the
  -- function with the converted arguments returned, and it satisfies the contract's output schema;
  -- or no handler was invoked and pydantic has read the result from a stored value. This is where
  -- pydantic stores the contract's name as it is.
  pub protect_tool-Served :
      (mode : String) (s t u u' : FacadeState L I) (tool : Tool L I) (bound : Result BoundArguments)
      (arguments : JsonObject) (v : Value)
      → h.accept domain_name p.contract.name ≡ some p.contract.name
      → protect_tool h actum p mode function s ≡ (ok tool, t)
      → Session h actum t u
      → bind_json_arguments bound ≡ ok arguments
      → tool bound u ≡ (ok v, u')
      → (m : LangGraphReturnMode) × (return_mode mode ≡ ok m) × Served m u arguments v u'
  protect_tool-Served mode s t u u' tool bound arguments v accepted e session is_bound answered =
      let (m, known, (callable, made, wraps)) = protect_tool-wraps mode s t tool e in
      let (same, registered) = protect-registers h actum p function s t callable made in
      let found =
        Session-keeps h actum p.contract.name (registration h actum p function) session
          registered in
      let is_tool : tool ≡ tool_wrapper actum m (call_protected h actum p) =
        wraps ∙ ap (tool_wrapper actum m) (sym same) in
      (
        m,
        known,
        call-Served m u u' bound arguments v accepted found is_bound
            (ap (λ f. f bound u) (sym is_tool) ∙ answered),
      )
