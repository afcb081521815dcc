-- ===== src/Execution/Schema/Numbers.antt =====
-- The checks of integers against a schema's minimum.
use agent_actum.Base.{
  String, if◌then◌else◌, ◌≡◌, refl, ap, ◌∙◌, sym, subst, Bool, true, false, none, some,
}
use agent_actum.Model.Number.{ℤ, Number, number_lt}
use agent_actum.Model.Number as Num
use agent_actum.Model.Json.{
  Value, null, bool, int, float, str, list, dict, other, JsonObject, get, as_number,
}
use agent_actum.Model.Host.{Host}
use agent_actum.Execution.Schema.{
  first, fields_of, is_int, json_error, expected_type, properties_error, type_error_of,
  validate_value, minimum_error, minimum_of,
}
use agent_actum.Execution.Schema.Laws.{first-none, must-none}

an_int : (v : Value) → is_int v ≡ true → (n : ℤ) × (v ≡ int n)
an_int (int n) h = (n, refl)
an_int null h = cc
an_int (bool _) h = cc
an_int (float _) h = cc
an_int (str _) h = cc
an_int (list _) h = cc
an_int (dict _) h = cc
an_int (other _) h = cc

no_message : (b : Bool) (m : String) → (if b then some m else none) ≡ none → b ≡ false
no_message true m e = cc
no_message false m e = refl

minimum_respected :
    (h : Host) (path : String) (n : ℤ) (minimum : Value) (m : Number)
    → as_number minimum ≡ some m
    → minimum_error h path (int n) (some minimum) ≡ none
    → number_lt (Num.Number.int n) m ≡ false
minimum_respected h path n minimum m read e =
    no_message (number_lt (Num.Number.int n) m) _
      (subst (λ r. minimum_of h path minimum (some (Num.Number.int n)) r ≡ none) read e)

-- A value that passes a schema of type "integer" is an integer that is not below the schema's
-- minimum, where the schema has a number as minimum.
pub validate_value_integer :
    (h : Host) (schema : JsonObject) (v : Value) (path : String)
    → get "type" schema ≡ some (str "integer")
    → validate_value h v schema path ≡ none
    → (n : ℤ) × (v ≡ int n)
      × ((minimum : Value) (m : Number)
          → get "minimum" schema ≡ some minimum
          → as_number minimum ≡ some m
          → number_lt (Num.Number.int n) m ≡ false)
unfolding validate_value
validate_value_integer h schema v path typed e =
    let opened =
      ap
        (λ t.
          first
            (type_error_of h schema v path (expected_type t)
              (properties_error h schema (fields_of v) path))
            (json_error path v))
        (sym typed)
      ∙ e in
    let (inner, json) = (first-none _ _).0 opened in
    let (whole, minimal) = (first-none _ _).0 inner in
    let (n, shape) = an_int v ((must-none (is_int v) path " must be an integer").0 whole) in
    (
      n,
      shape,
      λ minimum m listed read. minimum_respected h path n minimum m read (
          subst (λ w. minimum_error h path w (some minimum) ≡ none) shape
            (subst (λ w. minimum_error h path v w ≡ none) listed minimal)),
    )
