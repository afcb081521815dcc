-- ===== src/Facade/JsonTypes.antt =====
-- The objects that `_as_json_value` converts.
use agent_actum.Base.{
  String, text_eq, ◌≡◌, refl, sym, ap, ◌∙◌, inl, inr, Bool, true, false, ◌&&◌, arith,
}
use agent_actum.Model.Json.{Fields, end}
use agent_actum.Model.Exec.{Result, ok, err, Result-cases}
use agent_actum.Facade.PythonValues.{Object, Objects, Entries}
use agent_actum.Facade.{put, as_json_value, as_json_items, as_json_fields}

abbrev pub returns_value : {A : Type 0} → Result A → Bool
returns_value (ok _) = true
returns_value (err _) = false

-- Whether an object is made of texts, numbers, booleans, `None`, lists and dicts only, and `str`
-- returns for every key.
unfoldable mutual
  pub is_json : Object → Bool
  is_json Object.null = true
  is_json (Object.bool _) = true
  is_json (Object.int _) = true
  is_json (Object.float _) = true
  is_json (Object.str _) = true
  is_json (Object.list xs) = are_json xs
  is_json (Object.dict es) = hold_json es
  is_json Object.other = false

  pub are_json : Objects → Bool
  are_json Objects.nil = true
  are_json (Objects.cons v rest) = is_json v && are_json rest

  pub hold_json : Entries → Bool
  hold_json Entries.end = true
  hold_json (Entries.entry key v rest) = (returns_value key && is_json v) && hold_json rest

mutual
  unfolding as_json_value as_json_items as_json_fields is_json are_json hold_json

  pub value-returns :
      (name : String) (v : Object) → returns_value (as_json_value name v) ≡ is_json v
  value-returns name Object.null = refl
  value-returns name (Object.bool _) = refl
  value-returns name (Object.int _) = refl
  value-returns name (Object.float _) = refl
  value-returns name (Object.str _) = refl
  value-returns name (Object.list xs) = ground (arith, items-returns name xs)
  value-returns name (Object.dict es) = ground (arith, fields-returns name es end)
  value-returns name Object.other = refl

  items-returns :
      (name : String) (xs : Objects) → returns_value (as_json_items name xs) ≡ are_json xs
  items-returns name Objects.nil = refl
  items-returns name (Objects.cons v rest) =
      ground (arith, value-returns name v, items-returns name rest)

  fields-returns :
      (name : String) (es : Entries) (o : Fields)
      → returns_value (as_json_fields name es o) ≡ hold_json es
  fields-returns name Entries.end o = refl
  fields-returns name (Entries.entry (err e) v rest) o = refl
  fields-returns name (Entries.entry (ok k) v rest) o = elim (Result-cases (as_json_value name v)) [
    | inl (u, made) ↦
        let good : is_json v ≡ true = sym (value-returns name v) ∙ ap returns_value made in
        rw (made, good) (fields-returns name rest (put k u o))
    | inr (e, raised) ↦
        let bad : is_json v ≡ false = sym (value-returns name v) ∙ ap returns_value raised in
        rw (raised, bad) refl
  ]
