-- ===== src/Contracts/Registry/Laws.antt =====
-- What a registration does to the registry and to the list of its tools.
use agent_actum.Base.{
  String, text_eq, ◌≡◌, ◌≢◌, refl, ap, ◌∙◌, inl, inr, true, false, Option, none, some, List, [],
  ◌∷◌, ◌++◌, map, Dict, lookup, lookup-insert_self, lookup-insert_ne, insert, insert_new, values,
  is_some, Option-cases,
}
use agent_actum.Model.Exec.{Result, ok, err, duplicate_tool, unknown_tool}
use agent_actum.Contracts.Models.{ToolContract}
use agent_actum.Contracts.Registry.{
  RegisteredTool, ToolRegistry, register, get, is_registered, list_contracts,
}

values-append :
    {V : Type 0} (d : Dict String V) (k : String) (v : V)
    → values (d ++ (k, v) ∷ []) ≡ values d ++ v ∷ []
values-append [] k v = refl
values-append (e ∷ d) k v = ap (λ vs. e.1 ∷ vs) (values-append d k v)

map-append :
    {A B : Type 0} (f : A → B) (xs : List A) (x : A) → map f (xs ++ x ∷ []) ≡ map f xs ++ f x ∷ []
map-append f [] x = refl
map-append f (y ∷ xs) x = ap (λ ys. f y ∷ ys) (map-append f xs x)

-- How a registration ends: refused, the registry as it was, if the name is known; otherwise listed
-- last and found under its name, every other name as before.
abbrev pub Registered :
    {H : Type 0}
    → ToolContract
    → H
    → ToolRegistry H
    → Result (RegisteredTool H) × ToolRegistry H
    → Type 0
Registered contract handler s (err e, s') =
    (is_registered contract.name s ≡ true) × (e ≡ duplicate_tool contract.name) × (s' ≡ s)
Registered contract handler s (ok r, s') =
    (is_registered contract.name s ≡ false)
    × (r ≡ record { contract = contract; handler = handler })
    × (get contract.name s' ≡ ok r)
    × ((name : String) → contract.name ≢ name → get name s' ≡ get name s)
    × (list_contracts s' ≡ list_contracts s ++ contract ∷ [])

module _ {H : Type 0} (contract : ToolContract) (handler : H) (s : ToolRegistry H) where
  abbrev registration : RegisteredTool H
  registration = record { contract = contract; handler = handler }

  -- The answer of `get` for what the dictionary holds under a name.
  abbrev found_as : String → Option (RegisteredTool H) → Result (RegisteredTool H)
  found_as name found = elim found [ none ↦ err (unknown_tool name) | some r ↦ ok r ]

  list_contracts-insert :
      lookup contract.name s ≡ none
      → list_contracts (insert contract.name registration s) ≡ list_contracts s ++ contract ∷ []
  unfolding list_contracts
  list_contracts-insert absent =
      ap (λ d. map (λ r. r.contract) (values d)) (insert_new contract.name registration s absent)
      ∙ (ap (map (λ r. r.contract)) (values-append s contract.name registration)
          ∙ map-append (λ r. r.contract) (values s) registration)

  -- A registration under a known name is refused and changes nothing; another one is answered by
  -- its contract and handler, is found under its name from then on, leaves what the other names find
  -- as it was, and is listed behind all others.
  pub register-Registered : Registered contract handler s (register contract handler s)
  unfolding register is_registered get
  register-Registered = elim (Option-cases (lookup contract.name s)) [
    | inr (r, held) ↦ rw held (ap is_some held, refl, refl)
    | inl absent ↦ rw absent (
      ap is_some absent,
      refl,
      ap (found_as contract.name) (lookup-insert_self contract.name registration s),
      λ name other. ap (found_as name) (lookup-insert_ne contract.name name registration s other),
      list_contracts-insert absent,
    )
  ]
