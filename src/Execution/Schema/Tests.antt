-- ===== src/Execution/Schema/Tests.antt =====
-- Tests of the schema validation, and its theorems at concrete inputs.
use agent_actum.Base.{◌≡◌, refl, ◌↔◌, false, none, some}
use agent_actum.Samples.{host, amount_schema}
use agent_actum.Model.Number.{ℤ, Number, number_lt, pos, units_per_one}
use agent_actum.Model.Number as Num
use agent_actum.Model.Json.{Value, int, str, dict, end, field, JsonObject, get, as_number, dumps}
use agent_actum.Execution.Schema.{
  validate_value, validate_against_schema, properties_error, missing_field,
}
use agent_actum.Execution.Schema.Laws.{ObjectOk, validate_value-ObjectOk}
use agent_actum.Execution.Schema.Numbers.{validate_value_integer}

abbrev payment : Value
payment = dict (field "amount" (int (pos 5)) end)

amount_missing :
    validate_against_schema host (dict end) amount_schema.document ≡ some "$.amount is required"
unfolding validate_against_schema validate_value properties_error missing_field
amount_missing = refl

amount_text :
    validate_against_schema host (dict (field "amount" (str "5") end)) amount_schema.document
    ≡ some "$.amount must be an integer"
unfolding validate_against_schema validate_value properties_error missing_field
amount_text = refl

validate_value-ObjectOk_example :
    (validate_value host payment amount_schema.document "$" ≡ none)
    ↔ ObjectOk host amount_schema.document payment "$"
validate_value-ObjectOk_example =
    validate_value-ObjectOk host amount_schema.document payment "$" refl

abbrev positive : JsonObject
positive = field "type" (str "integer") (field "minimum" (int (pos 1)) end)

five_passes : validate_value host (int (pos 5)) positive "$" ≡ none
unfolding validate_value units_per_one properties_error dumps
five_passes = refl

validate_value_integer_example :
    (n : ℤ) × (int (pos 5) ≡ int n)
    × ((minimum : Value) (m : Number)
        → get "minimum" positive ≡ some minimum
        → as_number minimum ≡ some m
        → number_lt (Num.Number.int n) m ≡ false)
validate_value_integer_example =
    validate_value_integer host positive (int (pos 5)) "$" refl five_passes
