-- ===== src/Facade/Tests.antt =====
-- Tests of the facade, and its theorem at concrete inputs.
use agent_actum.Base.{◌∷◌, ◌+◌, text_eq, ◌≡◌, ap, ◌⊎◌, refl, true, none, []}
use agent_actum.Samples.{host, contract}
use agent_actum.Model.Json.{dict, null, str, int, field, end, dumps}
use agent_actum.Model.Number.{pos}
use agent_actum.Model.Exec.{ok, err, type_error}
use agent_actum.Contracts.Registry.{register, get}
use agent_actum.Ledger.Memory.{InMemoryLedger}
use agent_actum.Execution.Runtime.Example.{registered_pay, pay, runtime, world}
use agent_actum.Facade.PythonValues.{Object, Entries, BoundArguments}
use agent_actum.Facade.{as_json_value, as_json_fields, put}
use agent_actum.Facade.{Protection, json_arguments, bind_json_arguments, wrapper}
use agent_actum.Facade.Arguments.{Converted, json_arguments-Converted}
use agent_actum.Facade.Protect.{create, call_protected, protect}
use agent_actum.Facade.Sessions.{opened, then_protect, Invoked, protect-Invoked}
use agent_actum.Facade.Example.{
  bound, paid, wrapper_run, protected_pay, protection, actum, empty_facade,
}
use agent_actum.Facade.Kept.{no_more, then_call}
use agent_actum.Facade.Laws.{protected_once}
use agent_actum.Facade.Replays.{protected_replays}
use agent_actum.Execution.Runtime.AtMostOnce.{MemoryRuntime}
use agent_actum.Execution.Runtime.ReplayedResults.{Answer}

argument_refused :
    bind_json_arguments (ok (("amount", Object.other) ∷ [])) ≡ err (type_error "amount")
unfolding json_arguments as_json_value
argument_refused = refl

protected_once_example :
    let u =
      (wrapper host runtime
        (record protection { is_blank = λ _. true })
        bound
        (wrapper host runtime protection bound world).1).1 in
    (wrapper host runtime protection bound u).1.calls ≡ u.calls
unfolding json_arguments as_json_value
protected_once_example =
    protected_once host runtime runtime protection bound bound (field "amount" (int (pos 5)) end)
      (field "amount" (int (pos 5)) end) world refl refl refl (refl, tt)
      (λ e. cc (wrapper_run.0, e))
      (then_call runtime (record protection { is_blank = λ _. true }) bound no_more)

-- A runtime whose pydantic reads the dump of the payment back.
abbrev reader : MemoryRuntime InMemoryLedger
reader = record runtime { model_validate_json = λ _. ok paid }

-- The payment again, after a call of another function, over a runtime that reads the stored result.
protected_replays_example :
    let t = (wrapper host runtime protection bound world).1 in
    let u =
      (wrapper host runtime
        (record protection { contract = record contract { name = "refund" } })
        bound
        t).1 in
    Answer paid (wrapper host reader protection bound u)
unfolding json_arguments as_json_value dumps
protected_replays_example =
    protected_replays host runtime reader protection bound bound (field "amount" (int (pos 5)) end)
      (field "amount" (int (pos 5)) end) world (wrapper host runtime protection bound world).1 paid
      refl refl refl (refl, tt) (λ k s e. refl) refl refl
      (ap (λ r. (r, (wrapper host runtime protection bound world).1)) wrapper_run.1)
      (λ e. cc (wrapper_run.0, e))
      (then_call runtime (record protection { contract = record contract { name = "refund" } })
        bound no_more)

-- Without arguments `__init__` builds this facade, over the system's clock.
created :
    let c =
      create
        (record host { utc_now = λ n. n + 50 })
        (λ _. str "result")
        (λ _. err (type_error "not a dump"))
        (record {
          policy_engine = none;
          registry = none;
          idempotency_backend = none;
          ledger = none;
          approval_checker = none;
          preconditions = [];
          postconditions = [];
          clock = none;
        }) in
    c.host.clock 3 ≡ 53
unfolding create
created = refl

-- A second tool, under another name.
abbrev refund : Protection
refund = record protection { contract = record contract { name = "refund" } }

pay_protected :
    protect host actum protection pay empty_facade
    ≡ (ok (call_protected host actum protection), protected_pay)
unfolding protect register
pay_protected = refl

-- The function is called after another one has been protected.
protect-Invoked_example :
    let u = (protect host actum refund pay protected_pay).1 in
    let v = (call_protected host actum protection bound u).1 in
    (get "pay" u.registry ≡ ok registered_pay)
    × (v.registry ≡ u.registry)
    × ((v.world.calls ≡ u.world.calls)
        ⊎ Invoked host actum protection pay (field "amount" (int (pos 5)) end) u.world v.world)
unfolding json_arguments as_json_value
protect-Invoked_example =
    protect-Invoked host actum protection pay empty_facade protected_pay
      (protect host actum refund pay protected_pay).1 (call_protected host actum protection) bound
      (field "amount" (int (pos 5)) end) refl pay_protected (then_protect refund pay opened) refl

-- An argument with a key that is no text, and a text key that collides with it.
abbrev with_note : BoundArguments
with_note =
    ("amount", Object.int (pos 5))
    ∷ (
      "note",
      Object.dict (
          Entries.entry (ok "1") (Object.bool true) (
            Entries.entry (ok "2") Object.null
              (Entries.entry (ok "1") (Object.str "x") Entries.end))),
    )
    ∷ []

note_converted :
    json_arguments with_note
    ≡ ok (
        field "amount"
          (int (pos 5))
          (field "note" (dict (field "1" (str "x") (field "2" null end))) end))
unfolding json_arguments as_json_value as_json_fields put
note_converted = refl

json_arguments-Converted_example : Converted with_note (json_arguments with_note)
json_arguments-Converted_example = json_arguments-Converted with_note
