-- ===== src/Facade/Arguments.antt =====
-- The conversion of the arguments of a protected call.
use agent_actum.Base.{
  String, text_eq, ◌≡◌, refl, sym, ap, ◌∙◌, subst, ◌⊎◌, inl, inr, true, false, Option, none, some,
  [], ◌∷◌,
}
use agent_actum.Model.Json.{
  Value, Items, Fields, null, bool, int, float, str, list, dict, nil, cons, end, field, get,
}
use agent_actum.Model.Exec.{Result, ok, err, Result-cases, ok_injective}
use agent_actum.Facade.PythonValues.{Object, Objects, BoundArguments}
use agent_actum.Facade.{add_entry, json_arguments, as_json_value, as_json_items, as_json_fields}
use agent_actum.Facade.JsonTypes.{returns_value, is_json, value-returns}
use agent_actum.Facade.DictEntries.{last_value, Read, fields-Read}

module _ (name : String) where
  -- What a key of the converted dict shows: the conversion of an entry's value, or nothing.
  abbrev pub Shown : Option Object → Option Value → Type 0
  Shown none x = x ≡ none
  Shown (some v) x = (u : Value) × (x ≡ some u) × (as_json_value name v ≡ ok u)

  Shown-of : (m : Option Object) (x : Option Value) → Read name m none x → Shown m x
  Shown-of none x r = r
  Shown-of (some v) x r = r

  -- The items of a list, one by one.
  abbrev pub Images : Objects → Items → Type 0
  Images Objects.nil nil = Unit
  Images Objects.nil (cons u us) = ⊥
  Images (Objects.cons v vs) nil = ⊥
  Images (Objects.cons v vs) (cons u us) = (as_json_value name v ≡ ok u) × Images vs us

  -- What an object is converted to: a scalar to itself, a list item by item, and a dict to one that
  -- shows under each text the conversion of the last value whose key is this text under `str`.
  abbrev pub Image : Object → Value → Type 0
  Image Object.null u = u ≡ null
  Image (Object.bool b) u = u ≡ bool b
  Image (Object.int n) u = u ≡ int n
  Image (Object.float x) u = u ≡ float x
  Image (Object.str s) u = u ≡ str s
  Image (Object.list xs) u = (us : Items) × (u ≡ list us) × Images xs us
  Image (Object.dict es) u =
      (o : Fields) × (u ≡ dict o) × ((k : String) → Shown (last_value k es) (get k o))
  Image Object.other u = ⊥

  items-Images : (xs : Objects) (us : Items) → as_json_items name xs ≡ ok us → Images xs us
  unfolding as_json_items
  items-Images Objects.nil nil e = tt
  items-Images Objects.nil (cons u us) e = cc
  items-Images (Objects.cons v vs) us e = elim (Result-cases (as_json_value name v)) [
    | inr (x, raised) ↦ let never = rw raised at e in cc
    | inl (u, made) ↦ elim (Result-cases (as_json_items name vs)) [
      | inr (x, raised) ↦ let never = rw (made, raised) at e in cc
      | inl (ws, all) ↦
          subst (Images (Objects.cons v vs)) (ok_injective (rw (made, all) at e))
            (made, items-Images vs ws all)
    ]
  ]

  value-Image : (v : Object) (u : Value) → as_json_value name v ≡ ok u → Image v u
  unfolding as_json_value
  value-Image Object.null u e = sym (ok_injective e)
  value-Image (Object.bool b) u e = sym (ok_injective e)
  value-Image (Object.int n) u e = sym (ok_injective e)
  value-Image (Object.float x) u e = sym (ok_injective e)
  value-Image (Object.str s) u e = sym (ok_injective e)
  value-Image (Object.list xs) u e = elim (Result-cases (as_json_items name xs)) [
    | inr (x, raised) ↦ let never = rw raised at e in cc
    | inl (us, made) ↦ (us, sym (ok_injective (rw made at e)), items-Images xs us made)
  ]
  value-Image (Object.dict es) u e = elim (Result-cases (as_json_fields name es end)) [
    | inr (x, raised) ↦ let never = rw raised at e in cc
    | inl (o, made) ↦ (
      o,
      sym (ok_injective (rw made at e)),
      λ k. Shown-of (last_value k es) (get k o) (fields-Read name es end o k made),
    )
  ]
  value-Image Object.other u e = cc

-- An argument of the call, under its name.
abbrev pub Argument : String → Object → BoundArguments → Type 0
Argument name v [] = ⊥
Argument name v ((k, u) ∷ rest) = ((name ≡ k) × (v ≡ u)) ⊎ Argument name v rest

-- The arguments of the action, one for each that was bound, under its name and in the same order.
abbrev pub Passed : BoundArguments → Fields → Type 0
Passed [] end = Unit
Passed [] (field k u rest) = ⊥
Passed ((name, v) ∷ bound) end = ⊥
Passed ((name, v) ∷ bound) (field k u rest) =
    (k ≡ name) × (is_json v ≡ true) × Image name v u × Passed bound rest

-- What becomes of the bound arguments.
abbrev pub Converted : BoundArguments → Result Fields → Type 0
Converted bound (ok arguments) = Passed bound arguments
Converted bound (err e) =
    (name : String) × (v : Object) × Argument name v bound
    × (is_json v ≡ false)
    × (as_json_value name v ≡ err e)

-- The same with one more argument in front, which passes.
Converted-field :
    (name : String) (v : Object) (u : Value) (bound : BoundArguments) (x : Result Fields)
    → as_json_value name v ≡ ok u
    → Converted bound x
    → Converted ((name, v) ∷ bound) (add_entry name (ok u) x)
Converted-field name v u bound (ok arguments) made passed =
    (refl, sym (value-returns name v) ∙ ap returns_value made, value-Image name v u made, passed)
Converted-field name v u bound (err e) made (k, w, there, bad, says) = (k, w, inr there, bad, says)

-- If the bound arguments pass, then each is an object of JSON types, at any depth, whose dicts have
-- keys for which `str` returns, and stands under its name as what it is converted to: a scalar as
-- itself, a list item by item, and a dict as one that shows under each text the conversion of the
-- last value whose key is this text under `str`; otherwise one of them is no such object, and the
-- error is that of its own conversion.
pub json_arguments-Converted : (bound : BoundArguments) → Converted bound (json_arguments bound)
unfolding json_arguments
json_arguments-Converted [] = tt
json_arguments-Converted ((name, v) ∷ bound) = elim (Result-cases (as_json_value name v)) [
  | inl (u, made) ↦
      rw made (
        Converted-field name v u bound (json_arguments bound) made (json_arguments-Converted bound))
  | inr (e, raised) ↦
      rw raised
        (name, v, inl (refl, refl), sym (value-returns name v) ∙ ap returns_value raised, raised)
]
