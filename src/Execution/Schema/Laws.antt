-- ===== src/Execution/Schema/Laws.antt =====
-- What a value that passes a schema is like: the checks of objects and of numbers, described by
-- themselves.
use Prim.Native.String.{◌++◌ as join}
use agent_actum.Base.{
  String, text_eq, ◌==◌, ◌≡◌, ◌↔◌, ◌⊎◌, inl, inr, refl, ap, subst, ◌∙◌, sym, Bool, true, false,
  Option, none, some, List, [], ◌∷◌, All, Bool-cases,
}
use agent_actum.Model.Json.{
  Value, Fields, null, bool, int, float, str, list, dict, other, end, field, JsonObject, get, has,
  dumps,
}
use agent_actum.Model.Host.{Host}
use agent_actum.Execution.Schema.{
  first, fields_of, is_dict, must, required_names, missing_field, json_error, expected_type,
  properties_error, each_property, property_list, property_error, type_error_of, validate_value,
}

-- `name: schema` is listed among the properties.
abbrev pub ListedIn : String → Fields → Fields → Type 0
ListedIn name schema end = ⊥
ListedIn name schema (field k s rest) = ((k ≡ name) × (s ≡ dict schema)) ⊎ ListedIn name schema rest

-- A value that passes an object schema: an object with the required fields, whose listed fields pass
-- their own schemas, and that `json.dumps` accepts.
pub record ObjectOk (h : Host) (schema : JsonObject) (v : Value) (path : String) : Type 0 where
  pub is_object : is_dict v ≡ true
  pub required :
      All (λ name. has name (fields_of v) ≡ true) (required_names (get "required" schema))
  pub properties :
      (props : Fields)
      → get "properties" schema ≡ some (dict props)
      → (name : String) (s : Fields) (x : Value) → ListedIn name s props
      → get name (fields_of v) ≡ some x
      → validate_value h x s (join path (join "." name)) ≡ none
  pub json : dumps v ≡ true

missing_field-All :
    (path : String) (o : Fields) (names : List String)
    → (missing_field path o names ≡ none) ↔ All (λ name. has name o ≡ true) names
unfolding missing_field
missing_field-All path o [] = (λ _. tt, λ _. refl)
missing_field-All path o (name ∷ rest) = elim (Bool-cases (has name o)) [
  | inl there ↦ (
    λ e. (there, (missing_field-All path o rest).0 (rw there at e)),
    λ a. rw there ((missing_field-All path o rest).1 a.1),
  )
  | inr missing ↦ (λ e. cc, λ a. cc)
]

-- The properties that a schema lists; none if the entry is no object.
abbrev props_of : Option Value → Fields
props_of (some (dict props)) = props
props_of _ = end

each_property_lem :
    (h : Host) (s : Value) (o : Fields) (path : String)
    → each_property h s o path ≡ property_list h (props_of (some s)) o path
unfolding properties_error
each_property_lem h null o path = refl
each_property_lem h (bool _) o path = refl
each_property_lem h (int _) o path = refl
each_property_lem h (float _) o path = refl
each_property_lem h (str _) o path = refl
each_property_lem h (list _) o path = refl
each_property_lem h (other _) o path = refl
each_property_lem h (dict props) o path = refl

properties_error_lem :
    (h : Host) (schema o : Fields) (path : String)
    → properties_error h schema o path ≡ property_list h (props_of (get "properties" schema)) o path
unfolding properties_error
properties_error_lem h end o path = refl
properties_error_lem h (field k s rest) o path = elim (Bool-cases (k == "properties")) [
  | inl here ↦ rw here (each_property_lem h s o path)
  | inr elsewhere ↦ rw elsewhere (properties_error_lem h rest o path)
]

-- The schema of one property, if the value has it.
abbrev PropertyOk : Host → Value → Option Value → String → Type 0
PropertyOk h s found path =
    (d : Fields) (x : Value) → s ≡ dict d → found ≡ some x → validate_value h x d path ≡ none

property_error-none :
    (h : Host) (s : Value) (found : Option Value) (path : String)
    → (property_error h s found path ≡ none) ↔ PropertyOk h s found path
unfolding properties_error validate_value
property_error-none h null found path = (λ _ d x e f. cc, λ _. refl)
property_error-none h (bool _) found path = (λ _ d x e f. cc, λ _. refl)
property_error-none h (int _) found path = (λ _ d x e f. cc, λ _. refl)
property_error-none h (float _) found path = (λ _ d x e f. cc, λ _. refl)
property_error-none h (str _) found path = (λ _ d x e f. cc, λ _. refl)
property_error-none h (list _) found path = (λ _ d x e f. cc, λ _. refl)
property_error-none h (other _) found path = (λ _ d x e f. cc, λ _. refl)
property_error-none h (dict d) none path = (λ _ d' x e f. cc, λ _. refl)
property_error-none h (dict d) (some x) path = (
  λ e d' x' q f.
      let same_schema : d ≡ d' = cc in
      let same_value : x ≡ x' = cc in
      subst (λ y. validate_value h y d' path ≡ none) same_value
        (subst (λ c. validate_value h x c path ≡ none) same_schema e),
  λ ok. ok d x refl refl,
)

pub first-none : (a b : Option String) → (first a b ≡ none) ↔ ((a ≡ none) × (b ≡ none))
first-none none b = (λ e. (refl, e), λ p. p.1)
first-none (some m) b = (λ e. cc, λ p. cc)

property_list-none :
    (h : Host) (props o : Fields) (path : String)
    → (property_list h props o path ≡ none) ↔ (
        (name : String) (s : Fields) (x : Value)
        → ListedIn name s props
        → get name o ≡ some x
        → validate_value h x s (join path (join "." name)) ≡ none)
unfolding properties_error
property_list-none h end o path = (λ _ name s x l f. elim l [ ], λ _. refl)
property_list-none h (field k s rest) o path =
    let here = property_error-none h s (get k o) (join path (join "." k)) in
    let there = property_list-none h rest o path in
    let both =
      first-none (property_error h s (get k o) (join path (join "." k)))
        (property_list h rest o path) in
    (
      λ e name d x l f. elim l [
        | inl (same, shape) ↦
            let f' : get k o ≡ some x = subst (λ n. get n o ≡ some x) (sym same) f in
            subst (λ n. validate_value h x d (join path (join "." n)) ≡ none) same
              (here.0 (both.0 e).0 d x shape f')
        | inr later ↦ there.0 (both.0 e).1 name d x later f
      ],
      λ ok. both.1 (
        here.1 (λ d x e f. ok k d x (inl (refl, e)) f),
        there.1 (λ name d x l f. ok name d x (inr l) f),
      ),
    )

pub must-none : (b : Bool) (path rest : String) → (must b path rest ≡ none) ↔ (b ≡ true)
must-none true path rest = (λ _. refl, λ _. refl)
must-none false path rest = (λ e. cc, λ e. cc)

listed_props :
    (name : String) (s : Fields) (found : Option Value)
    → ListedIn name s (props_of found)
    → (props : Fields) × (found ≡ some (dict props)) × ListedIn name s props
listed_props name s none l = elim l [ ]
listed_props name s (some (dict props)) l = (props, refl, l)
listed_props name s (some null) l = elim l [ ]
listed_props name s (some (bool _)) l = elim l [ ]
listed_props name s (some (int _)) l = elim l [ ]
listed_props name s (some (float _)) l = elim l [ ]
listed_props name s (some (str _)) l = elim l [ ]
listed_props name s (some (list _)) l = elim l [ ]
listed_props name s (some (other _)) l = elim l [ ]

module _ (h : Host) (schema : JsonObject) (v : Value) (path : String)
    (typed : get "type" schema ≡ some (str "object")) where
  validate_value_lem :
      validate_value h v schema path
      ≡ first
          (first (must (is_dict v) path " must be an object") (
            first
              (missing_field path (fields_of v) (required_names (get "required" schema)))
              (properties_error h schema (fields_of v) path)))
          (json_error path v)
  unfolding validate_value
  validate_value_lem =
      ap
        (λ t.
          first
            (type_error_of h schema v path (expected_type t)
              (properties_error h schema (fields_of v) path))
            (json_error path v))
        typed

  passes : validate_value h v schema path ≡ none → ObjectOk h schema v path
  passes e =
      let (inner, json) = (first-none _ _).0 (sym validate_value_lem ∙ e) in
      let (object, more) = (first-none _ _).0 inner in
      let (present, listed) = (first-none _ _).0 more in
      record {
        is_object = (must-none (is_dict v) path " must be an object").0 object;
        required = (missing_field-All path (fields_of v) _).0 present;
        properties = λ props found name s x l f.
            (property_list-none h _ (fields_of v) path).0
              (sym (properties_error_lem h schema (fields_of v) path) ∙ listed) name s x
              (subst (ListedIn name s) (sym (ap props_of found)) l) f;
        json = (must-none (dumps v) path " must be JSON serializable").0 json;
      }

  accepts : ObjectOk h schema v path → validate_value h v schema path ≡ none
  accepts ok =
      let listed =
        λ (name : String) (s : Fields) (x : Value)
            (l : ListedIn name s (props_of (get "properties" schema))).
          let (props, found, l') = listed_props name s (get "properties" schema) l in
          ok.properties props found name s x l' in
      let all_pass : properties_error h schema (fields_of v) path ≡ none =
        properties_error_lem h schema (fields_of v) path
        ∙ (property_list-none h (props_of (get "properties" schema)) (fields_of v) path).1 listed in
      validate_value_lem
      ∙ (first-none _ _).1 (
        (first-none _ _).1 (
          (must-none (is_dict v) path " must be an object").1 ok.is_object,
          (first-none _ _).1 (
            (missing_field-All path (fields_of v) (required_names (get "required" schema))).1
                ok.required,
            all_pass,
          ),
        ),
        (must-none (dumps v) path " must be JSON serializable").1 ok.json,
      )

  -- A value passes a schema of type "object" exactly if it is an object that has every field listed
  -- as required, if each listed property that it has passes the property's own schema, and if
  -- `json.dumps` accepts it.
  pub validate_value-ObjectOk : (validate_value h v schema path ≡ none) ↔ ObjectOk h schema v path
  validate_value-ObjectOk = (passes, accepts)
