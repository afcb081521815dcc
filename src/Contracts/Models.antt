-- ===== src/Contracts/Models.antt =====
-- contracts/models.py, and `_action_matches_contract`, which the policy engine and the runtime
-- each define alike.
use agent_actum.Base.{
  ℕ, String, ◌≡◌, ◌↔◌, Bool, true, ◌&&◌, if◌then◌else◌, nat_eq, text_eq, ◌==◌, text_iff, Option,
  arith,
}
use agent_actum.Model.Enums.{EffectType, RiskLevel}
use agent_actum.Model.Json.{JsonObject, dict, end, field}
use agent_actum.Model.Exec.{Result, ok, err, value_error, validation}
use agent_actum.Model.Host.{Host, checked, domain_name}

pub record ToolSchema : Type 0 where
  pub name : String
  pub document : JsonObject

-- `require_explicit_schema`, and the model's constructor.
unfoldable pub require_explicit_schema : JsonObject → Result JsonObject
require_explicit_schema end = err (value_error "schema document must not be empty")
require_explicit_schema (field k v rest) = ok (field k v rest)

abbrev named_schema : String → Result JsonObject → Result ToolSchema
named_schema name (ok document) = ok (record { name = name; document = document })
named_schema name (err e) = err e

unfoldable pub tool_schema : Host → String → JsonObject → Result ToolSchema
tool_schema h name document = elim (checked h domain_name name) [
  | err e ↦ err e
  | ok stored ↦
      if h.json (dict document)
      then named_schema stored (require_explicit_schema document)
      else err (validation "document")
]

pub record ToolContract : Type 0 where
  pub contract_id : ℕ
  pub name : String
  pub version : String
  pub description : String
  pub effect_type : EffectType
  pub risk_level : RiskLevel
  pub input_schema : ToolSchema
  pub output_schema : ToolSchema
  pub idempotency_key_required : Bool

pub record ActionIntent : Type 0 where
  pub intent_id : ℕ
  pub contract_id : ℕ
  pub tool_name : String
  pub contract_version : String
  pub requester_id : String
  pub arguments : JsonObject
  pub created_at : ℕ
  pub idempotency_key : Option String
  pub context : JsonObject

unfoldable pub action_matches_contract : ActionIntent → ToolContract → Bool
action_matches_contract action contract =
    action.contract_id == contract.contract_id
    && (action.tool_name == contract.name && action.contract_version == contract.version)

-- An action is bound to a contract when the identifier, the name and the version agree.
pub record Bound (action : ActionIntent) (contract : ToolContract) : Type 0 where
  pub same_id : action.contract_id ≡ contract.contract_id
  pub same_name : action.tool_name ≡ contract.name
  pub same_version : action.contract_version ≡ contract.version

pub action_matches_contract_iff :
    (a : ActionIntent) (c : ToolContract) → (action_matches_contract a c ≡ true) ↔ Bound a c
unfolding action_matches_contract
action_matches_contract_iff a c = (
  λ h. ground (arith, text_iff a.tool_name c.name, text_iff a.contract_version c.version),
  λ b. ground (arith, text_iff a.tool_name c.name, text_iff a.contract_version c.version),
)
