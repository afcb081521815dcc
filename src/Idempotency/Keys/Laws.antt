-- ===== src/Idempotency/Keys/Laws.antt =====
-- What a key depends on, and when there is one.
use agent_actum.Base.{
  String, text_eq, ◌≡◌, refl, ap, ◌∙◌, Bool, true, false, none, some, List, [], ◌∷◌, is_empty,
  is_some, distinct, any, All, Option-cases, inl, inr, arith,
}
use agent_actum.Model.Json.{Value, Fields, JsonObject, get, has}
use agent_actum.Model.Exec.{ok, err, Result-cases}
use agent_actum.Idempotency.Keys.{
  validate_key_material, select_arguments, select_field, key_from, create_key,
}

select_arguments_agree :
    (names : List String) (a b : JsonObject)
    → All (λ name. get name a ≡ get name b) names
    → select_arguments names a ≡ select_arguments names b
unfolding select_arguments
select_arguments_agree [] a b agree = refl
select_arguments_agree (name ∷ rest) a b (here, there) =
    ap (λ v. select_field name v (select_arguments rest a)) here
    ∙ ap (select_field name (get name b)) (select_arguments_agree rest a b there)

select_arguments-All :
    (names : List String) (a : JsonObject) (selected : Fields)
    → select_arguments names a ≡ ok selected
    → All (λ name. has name a ≡ true) names
unfolding select_arguments
select_arguments-All [] a selected e = tt
select_arguments-All (name ∷ rest) a selected e = elim (Option-cases (get name a)) [
  | inl missing ↦ let never = rw (missing, select_arguments) at e in cc
  | inr (v, there) ↦ elim (Result-cases (select_arguments rest a)) [
    | inl (others, found) ↦ (ap is_some there, select_arguments-All rest a others found)
    | inr (x, refused) ↦ let never = rw (there, refused, select_arguments) at e in cc
  ]
]

-- Arguments for which there is a key.
pub record KeyReady (is_blank : String → Bool) (tool_name : String) (arguments : JsonObject)
    (fields : List String) : Type 0 where
  pub tool_named : is_blank tool_name ≡ false
  pub some_field : is_empty fields ≡ false
  pub no_duplicates : distinct fields ≡ true
  pub no_blanks : any is_blank fields ≡ false
  pub all_present : All (λ name. has name arguments ≡ true) fields

module _ (is_blank : String → Bool) (digest : Value → String) (tool_name : String)
    (fields : List String) where
  -- A key depends on the named fields only: for arguments that agree on them, `create_key` returns
  -- the same key or raises the same error.
  pub create_key_agree :
      (a b : JsonObject)
      → All (λ name. get name a ≡ get name b) fields
      → create_key is_blank digest tool_name a fields
        ≡ create_key is_blank digest tool_name b fields
  unfolding create_key
  create_key_agree a b agree =
      ap
        (λ r. elim (validate_key_material is_blank tool_name fields) [
          | some e ↦ err e
          | none ↦ key_from digest tool_name fields r
        ])
        (select_arguments_agree fields a b agree)

  -- A key is returned only for a tool name that is not blank and for fields that are listed, distinct,
  -- not blank and all present in the arguments.
  pub create_key-KeyReady :
      (arguments : JsonObject) (key : String)
      → create_key is_blank digest tool_name arguments fields ≡ ok key
      → KeyReady is_blank tool_name arguments fields
  unfolding create_key validate_key_material
  create_key-KeyReady arguments key e =
      elim (Option-cases (validate_key_material is_blank tool_name fields)) [
        | inr (x, bad) ↦ let never = rw (bad, create_key) at e in cc
        | inl fine ↦ elim (Result-cases (select_arguments fields arguments)) [
          | inl (selected, found) ↦ record {
            tool_named = ground (arith, fine);
            some_field = ground (arith, fine);
            no_duplicates = ground (arith, fine);
            no_blanks = ground (arith, fine);
            all_present = select_arguments-All fields arguments selected found;
          }
          | inr (x, refused) ↦ let never = rw (fine, refused, create_key) at e in cc
        ]
      ]
