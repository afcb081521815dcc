-- ===== src/Idempotency/Keys/Tests.antt =====
-- Tests of the keys, and their theorems at concrete inputs.
use agent_actum.Base.{String, text_eq, ◌==◌, ◌≡◌, refl, Bool, [], ◌∷◌}
use agent_actum.Model.Number.{pos}
use agent_actum.Model.Json.{Value, int, str, end, field, JsonObject, dumps}
use agent_actum.Model.Exec.{ok, err, missing_field}
use agent_actum.Idempotency.Keys.{create_key, validate_key_material, select_arguments}
use agent_actum.Idempotency.Keys.Laws.{KeyReady, create_key_agree, create_key-KeyReady}

abbrev is_blank : String → Bool
is_blank s = s == ""

abbrev digest : Value → String
digest _ = "0a"

-- Two requests that differ in their tracing only.
abbrev first_request : JsonObject
first_request = field "amount" (int (pos 5)) (field "trace" (str "t1") end)

abbrev second_request : JsonObject
second_request = field "trace" (str "t2") (field "amount" (int (pos 5)) end)

first_key :
    create_key is_blank digest "pay" first_request ("amount" ∷ []) ≡ ok "agentactum:v1:pay:0a"
unfolding create_key validate_key_material select_arguments dumps
first_key = refl

missing :
    create_key is_blank digest "pay" first_request ("amount" ∷ "to" ∷ []) ≡ err (missing_field "to")
unfolding create_key validate_key_material select_arguments
missing = refl

same_fields_same_key :
    create_key is_blank digest "pay" first_request ("amount" ∷ [])
    ≡ create_key is_blank digest "pay" second_request ("amount" ∷ [])
same_fields_same_key =
    create_key_agree is_blank digest "pay" ("amount" ∷ []) first_request second_request (refl, tt)

create_key-KeyReady_example : KeyReady is_blank "pay" first_request ("amount" ∷ [])
create_key-KeyReady_example =
    create_key-KeyReady is_blank digest "pay" ("amount" ∷ []) first_request "agentactum:v1:pay:0a"
      first_key
