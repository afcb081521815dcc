-- ===== src/Idempotency/Keys.antt =====
-- idempotency/keys.py: `create_key`. `is_blank` tells whether a text is empty once stripped;
-- `digest` is the SHA-256 digest, in hexadecimal, of the canonical JSON text of a value.
pub mod Laws
mod Tests
use Prim.Native.String.{◌++◌ as join}
use agent_actum.Base.{
  String, text_eq, Bool, true, false, not, if◌then◌else◌, Option, none, some, List, [], ◌∷◌,
  is_empty, distinct, any,
}
use agent_actum.Model.Number.{pos}
use agent_actum.Model.Json.{
  Value, Items, Fields, int, str, list, dict, nil, cons, end, field, JsonObject, get, dumps,
}
use agent_actum.Model.Exec.{Result, ok, err, Error, value_error, missing_field}

-- `_validate_key_material`: the error that it raises, if it raises.
unfoldable pub validate_key_material : (String → Bool) → String → List String → Option Error
validate_key_material is_blank tool_name fields =
    if is_blank tool_name
    then some (value_error "tool_name must not be blank")
    else if is_empty fields
    then some (value_error "fields must not be empty")
    else if not (distinct fields)
    then some (value_error "fields must not contain duplicates")
    else if any is_blank fields
    then some (value_error "fields must not contain blank names")
    else none

abbrev add_field : String → Value → Result Fields → Result Fields
add_field name v (ok rest) = ok (field name v rest)
add_field name v (err e) = err e

-- One turn of the loop over the fields, given what the later turns select.
abbrev pub select_field : String → Option Value → Result Fields → Result Fields
select_field name none others = err (missing_field name)
select_field name (some v) others = add_field name v others

-- The loop over the fields: the selected arguments, or the first field that is missing.
unfoldable pub select_arguments : List String → JsonObject → Result Fields
select_arguments [] arguments = ok end
select_arguments (name ∷ rest) arguments =
    select_field name (get name arguments) (select_arguments rest arguments)

abbrev text_list : List String → Items
text_list [] = nil
text_list (s ∷ rest) = cons (str s) (text_list rest)

abbrev pub material : String → List String → Fields → Value
material tool_name fields selected = dict (
    field "fields" (list (text_list fields)) (
      field "tool_name" (str tool_name)
        (field "values" (dict selected) (field "version" (int (pos 1)) end))))

-- The key of a material that `json.dumps` accepts.
abbrev pub key_of : (Value → String) → String → Value → Result String
key_of digest tool_name m =
    if dumps m
    then ok (join "agentactum:v1" (join ":" (join tool_name (join ":" (digest m)))))
    else err (value_error "key material is not JSON serializable")

abbrev pub key_from : (Value → String) → String → List String → Result Fields → Result String
key_from digest tool_name fields (err e) = err e
key_from digest tool_name fields (ok selected) =
    key_of digest tool_name (material tool_name fields selected)

unfoldable pub create_key :
    (String → Bool) → (Value → String) → String → JsonObject → List String → Result String
create_key is_blank digest tool_name arguments fields =
    elim (validate_key_material is_blank tool_name fields) [
      | some e ↦ err e
      | none ↦ key_from digest tool_name fields (select_arguments fields arguments)
    ]
