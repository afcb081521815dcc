-- ===== src/Execution/Schema.antt =====
-- execution/runtime.py: `_validate_against_schema` and its helpers, the supported subset of JSON
-- Schema. The functions return the message of the `SchemaValidationError` that the source raises,
-- and `none` where it returns.
pub mod Laws
pub mod Numbers
mod Tests
use Prim.Native.String.{◌++◌ as join}
use agent_actum.Base.{
  String, text_eq, ◌==◌, Bool, true, false, not, if◌then◌else◌, Option, none, some, List, [], ◌∷◌,
}
use agent_actum.Model.Number.{Number, number_lt}
use agent_actum.Model.Json.{
  Value, Items, Fields, null, bool, int, float, str, list, dict, other, nil, cons, end, field,
  JsonObject, get, has, as_number, text_items, dumps,
}
use agent_actum.Model.Exec.{Result, ok, err, value_error}
use agent_actum.Model.Host.{Host}

-- The first message, if there is one.
abbrev pub first : Option String → Option String → Option String
first (some m) rest = some m
first none rest = rest

abbrev pub is_dict : Value → Bool
is_dict (dict _) = true
is_dict _ = false

abbrev pub is_str : Value → Bool
is_str (str _) = true
is_str _ = false

abbrev pub is_int : Value → Bool
is_int (int _) = true
is_int _ = false

abbrev pub is_number : Value → Bool
is_number (int _) = true
is_number (float _) = true
is_number _ = false

abbrev pub is_bool : Value → Bool
is_bool (bool _) = true
is_bool _ = false

abbrev pub is_list : Value → Bool
is_list (list _) = true
is_list _ = false

-- The fields of an object; a value of another type has none.
abbrev pub fields_of : Value → Fields
fields_of (dict o) = o
fields_of _ = end

-- `if not test: raise SchemaValidationError(f"{path}{rest}")`.
abbrev pub must : Bool → String → String → Option String
must true path rest = none
must false path rest = some (join path rest)

-- `_json_or_raise`.
abbrev pub json_error : String → Value → Option String
json_error path v = must (dumps v) path " must be JSON serializable"

-- The names that the schema lists as required; entries that are no texts are passed over.
abbrev pub required_names : Option Value → List String
required_names (some (list items)) = text_items items
required_names _ = []

unfoldable pub missing_field : String → Fields → List String → Option String
missing_field path o [] = none
missing_field path o (name ∷ rest) =
    if has name o
    then missing_field path o rest
    else some (join path (join "." (join name " is required")))

abbrev below_minimum : Host → String → Value → Number → Number → Option String
below_minimum h path minimum n m =
    if number_lt n m
    then some (join path (join " must be at least " (h.number_text minimum)))
    else none

abbrev pub minimum_of : Host → String → Value → Option Number → Option Number → Option String
minimum_of h path minimum (some n) (some m) = below_minimum h path minimum n m
minimum_of h path minimum _ _ = none

-- `_validate_minimum`.
abbrev pub minimum_error : Host → String → Value → Option Value → Option String
minimum_error h path v none = none
minimum_error h path v (some minimum) = minimum_of h path minimum (as_number v) (as_number minimum)

-- The text of a schema's `type`; a type that is present and no text is unsupported.
pub data Expected : Type 0 where
  absent unsupported : Expected
  named : String → Expected

abbrev pub expected_type : Option Value → Expected
expected_type none = absent
expected_type (some null) = absent
expected_type (some (str s)) = named s
expected_type (some _) = unsupported

module _ (h : Host) (schema : JsonObject) (v : Value) (path : String) where
  -- `properties_error` is the outcome of the loop over the schema's properties.
  abbrev object_error : Option String → Option String
  object_error properties_error = first (must (is_dict v) path " must be an object") (
      first (missing_field path (fields_of v) (required_names (get "required" schema)))
        properties_error)

  abbrev pub type_error_of : Expected → Option String → Option String
  type_error_of absent properties_error = none
  type_error_of unsupported properties_error = some (join path " has unsupported schema type")
  type_error_of (named t) properties_error =
      if t == "object"
      then object_error properties_error
      else if t == "string"
      then must (is_str v) path " must be a string"
      else if t == "integer"
      then first (must (is_int v) path " must be an integer")
          (minimum_error h path v (get "minimum" schema))
      else if t == "number"
      then first (must (is_number v) path " must be a number")
          (minimum_error h path v (get "minimum" schema))
      else if t == "boolean"
      then must (is_bool v) path " must be a boolean"
      else if t == "array"
      then must (is_list v) path " must be an array"
      else some (join path " has unsupported schema type")

  -- `_validate_value`, given the outcome of the loop over the properties.
  abbrev pub checked_value : Option String → Option String
  checked_value properties_error =
      first (type_error_of (expected_type (get "type" schema)) properties_error) (json_error path v)

-- The loop over `schema.get("properties", {})`: the entry is looked for in the schema, and each
-- property that the value has is checked against the property's schema.
unfoldable mutual
  pub properties_error : Host → Fields → Fields → String → Option String
  properties_error h end o path = none
  properties_error h (field k s rest) o path =
      if k == "properties" then each_property h s o path else properties_error h rest o path

  pub each_property : Host → Value → Fields → String → Option String
  each_property h null o path = none
  each_property h (bool _) o path = none
  each_property h (int _) o path = none
  each_property h (float _) o path = none
  each_property h (str _) o path = none
  each_property h (list _) o path = none
  each_property h (other _) o path = none
  each_property h (dict props) o path = property_list h props o path

  pub property_list : Host → Fields → Fields → String → Option String
  property_list h end o path = none
  property_list h (field name s rest) o path =
      first (property_error h s (get name o) (join path (join "." name)))
        (property_list h rest o path)

  pub property_error : Host → Value → Option Value → String → Option String
  property_error h (dict schema) (some v) path =
      checked_value h schema v path (properties_error h schema (fields_of v) path)
  property_error h _ _ path = none

-- `_validate_value`: the message of the error that it raises, if it raises.
unfoldable pub validate_value : Host → Value → JsonObject → String → Option String
validate_value h v schema path =
    checked_value h schema v path (properties_error h schema (fields_of v) path)

-- `_validate_against_schema`.
unfoldable pub validate_against_schema : Host → Value → JsonObject → Option String
validate_against_schema h v schema = validate_value h v schema "$"

-- `_json_or_none`.
abbrev pub json_or_none : Value → Value
json_or_none v = if dumps v then v else null

-- `_json_or_raise` at a path.
abbrev pub json_or_raise : String → Value → Result Value
json_or_raise path v =
    if dumps v then ok v else err (value_error (join path " must be JSON serializable"))
