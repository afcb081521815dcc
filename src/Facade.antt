-- ===== src/Facade.antt =====
-- facade.py: `AgentActum.protect`. What `inspect` binds for a call is a parameter, as are the test
-- of a blank text and the digest of a key.
pub mod PythonValues
pub mod JsonTypes
pub mod DictEntries
pub mod Arguments
pub mod Calls
pub mod Protect
pub mod Sessions
pub mod Outputs
pub mod Kept
pub mod Replays
pub mod GivenKeys
pub mod Laws
pub mod Example
mod Tests
use agent_actum.Base.{
  ◌==◌, text_eq, ℕ, String, Bool, true, false, if◌then◌else◌, Option, none, some, or_else, List, [],
  ◌∷◌,
}
use agent_actum.Model.Json.{
  Value, Items, Fields, null, bool, int, float, str, list, dict, other, nil, cons, end, field,
  JsonObject, get, texts,
}
use agent_actum.Facade.PythonValues.{Object, Objects, Entries, BoundArguments}
use agent_actum.Model.Exec.{Result, ok, err, Exec, type_error, validation, lift, ◌>>=◌}
use agent_actum.Model.Host.{Host, checked, domain_name, short_text}
use agent_actum.Contracts.Models.{ToolContract, ActionIntent}
use agent_actum.Idempotency.Keys.{create_key}
use agent_actum.Execution.Models.{ExecutionResult}
use agent_actum.Execution.Runtime.Defs.{Runtime, World, draw_from}
use agent_actum.Execution.Runtime.Stages.{execute}

-- `o[k] = v`: a key that is there keeps its place.
unfoldable pub put : String → Value → Fields → Fields
put k v end = field k v end
put k v (field j u rest) =
    let others = put k v rest in if j == k then field j v rest else field j u others

abbrev pub add_item : Result Value → Result Items → Result Items
add_item (err e) rest = err e
add_item (ok v) (err e) = err e
add_item (ok v) (ok rest) = ok (cons v rest)

abbrev pub as_list : Result Items → Result Value
as_list (err e) = err e
as_list (ok xs) = ok (list xs)

abbrev pub as_dict : Result Fields → Result Value
as_dict (err e) = err e
as_dict (ok o) = ok (dict o)

-- The next step of a dict's comprehension, on what the key and the value have come to.
abbrev pub put_entry :
    Result String → Result Value → (Fields → Result Fields) → Fields → Result Fields
put_entry (err e) value next o = err e
put_entry (ok k) (err e) next o = err e
put_entry (ok k) (ok v) next o = next (put k v o)

-- `_as_json_value`; the comprehension over a dict adds to the dict `o` that it has so far.
unfoldable mutual
  pub as_json_value : String → Object → Result Value
  as_json_value name Object.null = ok null
  as_json_value name (Object.bool b) = ok (bool b)
  as_json_value name (Object.int n) = ok (int n)
  as_json_value name (Object.float x) = ok (float x)
  as_json_value name (Object.str s) = ok (str s)
  as_json_value name (Object.list xs) = as_list (as_json_items name xs)
  as_json_value name (Object.dict es) = as_dict (as_json_fields name es end)
  as_json_value name Object.other = err (type_error name)

  pub as_json_items : String → Objects → Result Items
  as_json_items name Objects.nil = ok nil
  as_json_items name (Objects.cons v rest) =
      add_item (as_json_value name v) (as_json_items name rest)

  pub as_json_fields : String → Entries → Fields → Result Fields
  as_json_fields name Entries.end o = ok o
  as_json_fields name (Entries.entry key v rest) o =
      put_entry key (as_json_value name v) (as_json_fields name rest) o

abbrev pub add_entry : String → Result Value → Result Fields → Result Fields
add_entry k (err e) rest = err e
add_entry k (ok v) (err e) = err e
add_entry k (ok v) (ok rest) = ok (field k v rest)

-- The comprehension of `_bind_json_arguments` over the bound arguments.
unfoldable pub json_arguments : BoundArguments → Result Fields
json_arguments [] = ok end
json_arguments ((name, v) ∷ rest) = add_entry name (as_json_value name v) (json_arguments rest)

-- `_bind_json_arguments`, given what `signature.bind` and `apply_defaults` make of the call.
abbrev pub bind_json_arguments : Result BoundArguments → Result Fields
bind_json_arguments (err e) = err e
bind_json_arguments (ok bound) = json_arguments bound

abbrev listed_fields : Option Value → List String
listed_fields (some (list items)) = or_else (texts items) []
listed_fields _ = []

-- `_required_schema_fields`.
abbrev pub required_schema_fields : ToolContract → List String
required_schema_fields contract = listed_fields (get "required" contract.input_schema.document)

-- What `protect` is given besides the contract, and the two parameters of `create_key`.
pub record Protection : Type 0 where
  pub contract : ToolContract
  pub idempotency_fields : Option (List String)
  pub context_factory : Option (JsonObject → Result JsonObject)
  pub is_blank : String → Bool
  pub digest : Value → String

abbrev pub key_fields : Protection → List String
key_fields p = or_else p.idempotency_fields (required_schema_fields p.contract)

abbrev pub keyed : Result String → Result (Option String)
keyed (ok key) = ok (some key)
keyed (err e) = err e

abbrev pub key_for : Protection → JsonObject → Result (Option String)
key_for p arguments =
    if p.contract.idempotency_key_required
    then keyed (create_key p.is_blank p.digest p.contract.name arguments (key_fields p))
    else ok none

abbrev pub checked_key : Host → Option String → Result (Option String)
checked_key h none = ok none
checked_key h (some key) = keyed (checked h short_text key)

-- The model `ActionIntent`, if pydantic accepts its texts and its arguments.
abbrev pub action_intent :
    Host → ToolContract → ℕ → ℕ → JsonObject → Option String → Result ActionIntent
action_intent h contract intent_id created_at arguments key =
    elim (checked h domain_name contract.name) [
      | err e ↦ err e
      | ok name ↦ elim (checked h short_text contract.version) [
        | err e ↦ err e
        | ok version ↦ elim (checked h short_text "agentactum.facade") [
          | err e ↦ err e
          | ok requester ↦ elim (checked_key h key) [
            | err e ↦ err e
            | ok stored ↦
                if h.json (dict arguments)
                then ok (record {
                  intent_id = intent_id;
                  contract_id = contract.contract_id;
                  tool_name = name;
                  contract_version = version;
                  requester_id = requester;
                  arguments = arguments;
                  created_at = created_at;
                  idempotency_key = stored;
                  context = end;
                })
                else err (validation "arguments")
          ]
        ]
      ]
    ]

abbrev pub context_of : Option (JsonObject → Result JsonObject) → JsonObject → Result JsonObject
context_of none arguments = ok end
context_of (some factory) arguments = factory arguments

module _ {L I : Type 0} (h : Host) (rt : Runtime L I) (p : Protection) where
  -- The call behind the arguments and the key.
  unfoldable pub submit : JsonObject → Option String → Exec (World L I) ExecutionResult
  submit arguments key = do
    intent_id ← draw_from h rt h.uuid4
    created_at ← draw_from h rt h.clock
    action ← lift (action_intent h p.contract intent_id created_at arguments key)
    context ← lift (context_of p.context_factory arguments)
    execute h rt action context

  -- The wrapper of a protected function, called with what `inspect` has bound; `rt` is made of the
  -- facade's components.
  unfoldable pub wrapper : Result BoundArguments → Exec (World L I) ExecutionResult
  wrapper bound = do
    arguments ← lift (bind_json_arguments bound)
    key ← lift (key_for p arguments)
    submit arguments key
