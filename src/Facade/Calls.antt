-- ===== src/Facade/Calls.antt =====
-- How far a call of a protected function gets.
use agent_actum.Base.{ℕ, suc, String, text_eq, ◌≡◌, refl, subst, sym, ◌⊎◌, inl, inr, Option, arith}
use agent_actum.Facade.PythonValues.{BoundArguments}
use agent_actum.Model.Json.{JsonObject}
use agent_actum.Model.Exec.{Result, ok, err, Error, Result-cases, lift, ◌>>=◌}
use agent_actum.Model.Host.{Host, checked, domain_name}
use agent_actum.Contracts.Models.{ToolContract, ActionIntent}
use agent_actum.Execution.Models.{ExecutionResult}
use agent_actum.Execution.Runtime.Defs.{Runtime, World, draw_from}
use agent_actum.Execution.Runtime.Stages.{execute}
use agent_actum.Facade.{
  Protection, wrapper, submit, bind_json_arguments, key_for, action_intent, context_of, checked_key,
}

module _ {L I : Type 0} (h : Host) (rt : Runtime L I) (p : Protection) where
  -- A call that has reached the runtime, with the key that it gave.
  pub record Executed (arguments : JsonObject) (key : Option String) (w : World L I)
      (x : Result ExecutionResult × World L I) : Type 0 where
    pub action : ActionIntent
    pub context : JsonObject
    pub before : World L I
    pub named : checked h domain_name p.contract.name ≡ ok action.tool_name
    pub same_arguments : action.arguments ≡ arguments
    pub stored : checked_key h key ≡ ok action.idempotency_key
    pub same_calls : before.calls ≡ w.calls
    pub same_records : before.idempotency ≡ w.idempotency
    pub ran : x ≡ execute h rt action context before

  -- A call that raised before the runtime was reached.
  abbrev pub Untouched : World L I → Result ExecutionResult × World L I → Type 0
  Untouched w x =
      (x.1.calls ≡ w.calls) × (x.1.idempotency ≡ w.idempotency) × ((e : Error) × (x.0 ≡ err e))

  action_intent-fields :
      (contract : ToolContract) (i c : ℕ) (arguments : JsonObject) (key : Option String)
      (a : ActionIntent)
      → action_intent h contract i c arguments key ≡ ok a
      → (checked h domain_name contract.name ≡ ok a.tool_name)
        × (a.arguments ≡ arguments)
        × (checked_key h key ≡ ok a.idempotency_key)
  action_intent-fields contract i c arguments key a e = (ground arith, ground arith, ground arith)

  submit-Executed :
      (arguments : JsonObject) (key : Option String) (w : World L I)
      → Untouched w (submit h rt p arguments key w)
        ⊎ Executed arguments key w (submit h rt p arguments key w)
  unfolding submit draw_from lift ◌>>=◌
  submit-Executed arguments key w =
      elim (Result-cases
        (action_intent h p.contract (h.uuid4 w.drawn) (h.clock (suc w.drawn)) arguments key)) [
          | inr (e, refused) ↦ inl (rw refused (refl, refl, (e, refl)))
          | inl (a, made) ↦ elim (Result-cases (context_of p.context_factory arguments)) [
            | inr (e, raised) ↦ inl (rw (made, raised) (refl, refl, (e, refl)))
            | inl (ctx, given) ↦ inr (record {
              action = a;
              context = ctx;
              before = record w { drawn = suc (suc w.drawn) };
              named = (action_intent-fields p.contract _ _ arguments key a made).0;
              same_arguments = (action_intent-fields p.contract _ _ arguments key a made).1;
              stored = (action_intent-fields p.contract _ _ arguments key a made).2;
              same_calls = refl;
              same_records = refl;
              ran = rw (made, given) refl;
            })
          ]
        ]

  wrapper-submit :
      (bound : Result BoundArguments) (arguments : JsonObject) (key : Option String) (w : World L I)
      → bind_json_arguments bound ≡ ok arguments
      → key_for p arguments ≡ ok key
      → wrapper h rt p bound w ≡ submit h rt p arguments key w
  unfolding wrapper lift ◌>>=◌
  wrapper-submit bound arguments key w bound_ok key_ok = rw (bound_ok, key_ok) refl

  wrapper-no_key :
      (bound : Result BoundArguments) (arguments : JsonObject) (e : Error) (w : World L I)
      → bind_json_arguments bound ≡ ok arguments
      → key_for p arguments ≡ err e
      → Untouched w (wrapper h rt p bound w)
  unfolding wrapper lift ◌>>=◌
  wrapper-no_key bound arguments e w bound_ok no_key = rw (bound_ok, no_key) (refl, refl, (e, refl))

  -- A call ends before the runtime, or reaches it with the key of its arguments.
  pub wrapper-Executed :
      (bound : Result BoundArguments) (arguments : JsonObject) (w : World L I)
      → bind_json_arguments bound ≡ ok arguments
      → Untouched w (wrapper h rt p bound w)
        ⊎ ((key : Option String) × (key_for p arguments ≡ ok key)
            × Executed arguments key w (wrapper h rt p bound w))
  wrapper-Executed bound arguments w bound_ok = elim (Result-cases (key_for p arguments)) [
    | inr (e, no_key) ↦ inl (wrapper-no_key bound arguments e w bound_ok no_key)
    | inl (key, key_ok) ↦
        let same : wrapper h rt p bound w ≡ submit h rt p arguments key w =
          wrapper-submit bound arguments key w bound_ok key_ok in
        elim (submit-Executed arguments key w) [
          | inl quiet ↦ inl (subst (Untouched w) (sym same) quiet)
          | inr x ↦ inr (key, key_ok, subst (Executed arguments key w) (sym same) x)
        ]
  ]

  pub wrapper-refused :
      (bound : Result BoundArguments) (e : Error) (w : World L I)
      → bind_json_arguments bound ≡ err e
      → Untouched w (wrapper h rt p bound w)
  unfolding wrapper lift ◌>>=◌
  wrapper-refused bound e w refused = rw refused (refl, refl, (e, refl))
