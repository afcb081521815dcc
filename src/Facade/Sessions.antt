-- ===== src/Facade/Sessions.antt =====
-- A facade over time: functions are protected and called in any order.
use agent_actum.Base.{
  String, text_eq, text_iff, ◌==◌, ◌≡◌, refl, sym, ap, ◌∙◌, subst, ◌⊎◌, inl, inr, true, false, none,
  some, [], ◌∷◌, ◌++◌, Bool-cases, arith, is_some, lookup, Option-cases,
}
use agent_actum.Facade.PythonValues.{BoundArguments}
use agent_actum.Model.Json.{dict, JsonObject}
use agent_actum.Model.Exec.{Result, ok, err, ok_injective}
use agent_actum.Model.Host.{Host, checked, domain_name}
use agent_actum.Contracts.Models.{ToolContract}
use agent_actum.Contracts.Registry.{RegisteredTool, ToolRegistry, register, get, is_registered}
use agent_actum.Contracts.Registry.Laws.{Registered, register-Registered}
use agent_actum.Execution.Schema.{validate_against_schema}
use agent_actum.Execution.Runtime.Defs.{Handler, World}
use agent_actum.Execution.Runtime.Admission.{execute-Gates}
use agent_actum.Facade.{Protection, wrapper, bind_json_arguments}
use agent_actum.Facade.Calls.{wrapper-Executed}
use agent_actum.Facade.Protect.{
  AgentActum, FacadeState, Protected, runtime_of, call_protected, decorated, protect,
}

module _ {L I : Type 0} (h : Host) (actum : AgentActum L I) where
  -- Functions are protected and called, one after another.
  pub data Session (s : FacadeState L I) : FacadeState L I → Type 0 where
    opened : Session s s
    then_protect :
        {u : FacadeState L I} (p : Protection) (function : Handler)
        → Session s u
        → Session s (protect h actum p function u).1
    then_invoke :
        {u : FacadeState L I} (p : Protection) (bound : Result BoundArguments)
        → Session s u
        → Session s (call_protected h actum p bound u).1

-- What `get` finds is registered.
get-known :
    (name : String) (s : ToolRegistry Handler) (r : RegisteredTool Handler)
    → get name s ≡ ok r
    → is_registered name s ≡ true
unfolding is_registered get
get-known name s r found = elim (Option-cases (lookup name s)) [
  | inl absent ↦ let never = rw (absent, get) at found in cc
  | inr (t, held) ↦ ap is_some held
]

-- A registration stays.
Registered-keeps :
    (contract : ToolContract) (handler : Handler) (name : String) (r : RegisteredTool Handler)
    (s : ToolRegistry Handler) (x : Result (RegisteredTool Handler) × ToolRegistry Handler)
    → Registered contract handler s x
    → get name s ≡ ok r
    → get name x.1 ≡ ok r
Registered-keeps contract handler name r s (err e, s') (_, _, same) found =
    subst (λ q. get name q ≡ ok r) (sym same) found
Registered-keeps contract handler name r s (ok t, s') (new, _, _, others, _) found =
    elim (Bool-cases (contract.name == name)) [
      | inl equal ↦
          let same : name ≡ contract.name = sym ((text_iff contract.name name).0 equal) in
          let known : is_registered contract.name s ≡ true =
            subst (λ k. is_registered k s ≡ true) same (get-known name s r found) in
          let never : true ≡ false = sym known ∙ new in cc
      | inr differ ↦
          others name
            (λ e. let never : true ≡ false = sym ((text_iff contract.name name).1 e) ∙ differ in cc)
          ∙ found
    ]

module _ {L I : Type 0} (h : Host) (actum : AgentActum L I) where
  pub Session-keeps :
      (name : String) (r : RegisteredTool Handler) {s u : FacadeState L I}
      → Session h actum s u
      → get name s.registry ≡ ok r
      → get name u.registry ≡ ok r
  unfolding protect call_protected
  Session-keeps name r opened found = found
  Session-keeps name r (then_protect {u} p function session) found =
      Registered-keeps p.contract function name r u.registry
        (register p.contract function u.registry)
        (register-Registered p.contract function u.registry) (Session-keeps name r session found)
  Session-keeps name r (then_invoke p bound session) found = Session-keeps name r session found

  module _ (p : Protection) (function : Handler) where
    abbrev pub registration : RegisteredTool Handler
    registration = record { contract = p.contract; handler = function }

    by_registration :
        (s : FacadeState L I) (x : Result (RegisteredTool Handler) × ToolRegistry Handler)
        (t : FacadeState L I) (callable : Protected L I)
        → Registered p.contract function s.registry x
        → ◌≡◌ {A = Result (Protected L I) × FacadeState L I}
            (decorated h actum p x.0, record s { registry = x.1 })
            (ok callable, t)
        → (call_protected h actum p ≡ callable) × (get p.contract.name t.registry ≡ ok registration)
    by_registration s (err e, registry) t callable q e' = cc
    by_registration s (ok r, registry) t callable (_, same, found, _, _) e =
        let same_callable : call_protected h actum p ≡ callable = ground (arith, e) in
        (
          same_callable,
          subst (λ q. get p.contract.name q.1.registry ≡ ok registration) e (found ∙ ap ok same),
        )

    -- `protect` that returned has registered the function, and returned its wrapper.
    pub protect-registers :
        (s t : FacadeState L I) (callable : Protected L I)
        → protect h actum p function s ≡ (ok callable, t)
        → (call_protected h actum p ≡ callable) × (get p.contract.name t.registry ≡ ok registration)
    unfolding protect
    protect-registers s t callable e =
        by_registration s (register p.contract function s.registry) t callable
          (register-Registered p.contract function s.registry) e

    -- The tool of an action under the contract's name is the registered one.
    pub registered-eq :
        (registry : ToolRegistry Handler) (tool_name : String) (tool : RegisteredTool Handler)
        → h.accept domain_name p.contract.name ≡ some p.contract.name
        → get p.contract.name registry ≡ ok registration
        → checked h domain_name p.contract.name ≡ ok tool_name
        → get tool_name registry ≡ ok tool
        → (p.contract.name ≡ tool_name) × (tool ≡ registration)
    registered-eq registry tool_name tool accepted found is_named is_tool =
        let named : ok p.contract.name ≡ ok tool_name = rw (accepted, checked) at is_named in
        let name : p.contract.name ≡ tool_name = ok_injective named in
        (name, ok_injective (sym is_tool ∙ (ap (λ k. get k registry) (sym name) ∙ found)))

    -- The invocation of the function with arguments that its contract allows.
    abbrev pub Invoked : JsonObject → World L I → World L I → Type 0
    Invoked arguments w w' =
        (validate_against_schema h (dict arguments) p.contract.input_schema.document ≡ none)
        × (w'.calls ≡ w.calls ++ record { tool_name = p.contract.name; arguments = arguments } ∷ [])

    -- A call over a registry that has the function.
    call-Invoked :
        (u : FacadeState L I) (bound : Result BoundArguments) (arguments : JsonObject)
        → h.accept domain_name p.contract.name ≡ some p.contract.name
        → get p.contract.name u.registry ≡ ok registration
        → bind_json_arguments bound ≡ ok arguments
        → let w = (wrapper h (runtime_of actum u.registry) p bound u.world).1 in
          (w.calls ≡ u.world.calls) ⊎ Invoked arguments u.world w
    call-Invoked u bound arguments accepted found is_bound =
        let rt = runtime_of actum u.registry in
        elim (wrapper-Executed h rt p bound arguments u.world is_bound) [
          | inl quiet ↦ inl quiet.0
          | inr (key, _, x) ↦ elim (execute-Gates h rt x.action x.context x.before) [
            | inl quiet ↦ inl (ap (λ q. q.1.calls) x.ran ∙ (quiet ∙ x.same_calls))
            | inr (g, once) ↦
                let (name, tool) =
                  registered-eq u.registry x.action.tool_name g.tool accepted found x.named
                    g.registered in
                inr (
                  subst
                      (λ a.
                        validate_against_schema h (dict a) p.contract.input_schema.document ≡ none)
                      x.same_arguments
                      (subst
                        (λ (t : RegisteredTool Handler).
                          validate_against_schema h (dict x.action.arguments)
                            t.contract.input_schema.document
                          ≡ none)
                        tool g.input_valid),
                  ap (λ q. q.1.calls) x.ran
                      ∙ (once ∙ (λ i.
                          x.same_calls i
                          ++ record { tool_name = sym name i; arguments = x.same_arguments i }
                            ∷ [])),
                )
          ]
        ]

    -- Once `protect` has returned the wrapper of a function, then after any further functions have
    -- been protected and called, the function still stands in the registry with its contract, and a
    -- call of the wrapper, with arguments that convert to JSON values, leaves the registry as it is
    -- and either invokes no handler, or makes exactly one invocation, under the contract's name,
    -- with the converted arguments, which satisfy the contract's input schema; where pydantic
    -- stores the contract's name as it is.
    pub protect-Invoked :
        (s t u : FacadeState L I) (callable : Protected L I) (bound : Result BoundArguments)
        (arguments : JsonObject)
        → h.accept domain_name p.contract.name ≡ some p.contract.name
        → protect h actum p function s ≡ (ok callable, t)
        → Session h actum t u
        → bind_json_arguments bound ≡ ok arguments
        → let v = (callable bound u).1 in
          (get p.contract.name u.registry ≡ ok registration)
          × (v.registry ≡ u.registry)
          × ((v.world.calls ≡ u.world.calls) ⊎ Invoked arguments u.world v.world)
    unfolding call_protected
    protect-Invoked s t u callable bound arguments accepted e session is_bound =
        let (same, registered) = protect-registers s t callable e in
        let found = Session-keeps p.contract.name registration session registered in
        subst
          (λ f.
            (get p.contract.name u.registry ≡ ok registration)
            × ((f bound u).1.registry ≡ u.registry)
            × (((f bound u).1.world.calls ≡ u.world.calls)
                ⊎ Invoked arguments u.world (f bound u).1.world))
          same (found, refl, call-Invoked u bound arguments accepted found is_bound)
