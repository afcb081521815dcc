-- ===== src/Contracts/Registry.antt =====
-- contracts/registry.py: `ToolRegistry`. A handler is opaque to the registry, so its type `H` is a
-- parameter; that a contract is a `ToolContract` and a handler callable holds by typing.
pub mod Laws
mod Tests
use agent_actum.Base.{
  String, text_eq, Bool, if◌then◌else◌, Option, none, some, List, [], ◌∷◌, map, Dict, lookup,
  contains, insert, values,
}
use agent_actum.Model.Exec.{
  Result, Exec, err, ok, duplicate_tool, unknown_tool, guard, pure, modify, raise, ◌>>=◌, ◌>>◌,
}
use agent_actum.Contracts.Models.{ToolContract}

pub record RegisteredTool (H : Type 0) : Type 0 where
  pub contract : ToolContract
  pub handler : H

-- `_registrations`.
abbrev pub ToolRegistry : Type 0 → Type 0
ToolRegistry H = Dict String (RegisteredTool H)

module _ {H : Type 0} where
  unfoldable pub register : ToolContract → H → Exec (ToolRegistry H) (RegisteredTool H)
  register contract handler registry =
      if contains contract.name registry
      then (err (duplicate_tool contract.name), registry)
      else (let registration : RegisteredTool H = record {
        contract = contract;
        handler = handler;
      } in
          (ok registration, insert contract.name registration registry))

  unfoldable pub get : String → ToolRegistry H → Result (RegisteredTool H)
  get tool_name registry = elim (lookup tool_name registry) [
    | none ↦ err (unknown_tool tool_name)
    | some r ↦ ok r
  ]

  unfoldable pub is_registered : String → ToolRegistry H → Bool
  is_registered tool_name registry = contains tool_name registry

  unfoldable pub list_contracts : ToolRegistry H → List ToolContract
  list_contracts registry = map (λ r. r.contract) (values registry)

  -- `__init__`: the given registrations one after another; a duplicate raises.
  unfoldable pub create : List (RegisteredTool H) → Exec (ToolRegistry H) (Unit {0})
  create [] registry = (ok tt, registry)
  create (r ∷ rest) registry = (register r.contract r.handler >> create rest) registry
