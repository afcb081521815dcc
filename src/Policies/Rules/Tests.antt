-- ===== src/Policies/Rules/Tests.antt =====
-- Tests of the policies, and their theorems at concrete inputs.
use agent_actum.Base.{◌*◌, String, ◌≡◌, refl, ◌≤◌, false, none, some, [], ◌∷◌, In, text_eq}
use agent_actum.Samples.{host, contract, risky_contract, action}
use agent_actum.Model.Enums.{risk_rank, high, allow, deny, require_approval, low, critical}
use agent_actum.Model.Number.{Number, pos, finite, number_lt, units_per_one}
use agent_actum.Model.Json.{str, list, nil, cons, end, field, get, JsonObject}
use agent_actum.Model.Exec.{◌>>=◌}
use agent_actum.Model.Host.{draw}
use agent_actum.Policies.Models.{PolicyDecision, validate_constraints}
use agent_actum.Policies.Engine.{make_decision, allow_decision}
use agent_actum.Policies.Rules.{
  tool_allow_deny, required_permission, required, string_set, risk_approval, numeric_threshold,
  number_argument, ToolAllowDenyPolicy, RequiredPermissionPolicy, RiskApprovalPolicy,
  NumericApprovalThresholdPolicy,
}
use agent_actum.Policies.Rules.Laws.{
  AllowsIf, Inside, Holds, tool_allow_deny-AllowsIf, required_permission-AllowsIf,
  risk_approval-AllowsIf, numeric_threshold_allows,
}

-- The decision of a policy at the start of the draws.
abbrev answer : String → String → PolicyDecision
answer name reason = record {
  decision_id = 100;
  intent_id = 1;
  decision_type = deny;
  risk_level = low;
  policy_name = name;
  policy_version = "1.0.0";
  reason = reason;
  decided_at = 1;
  constraints = [];
}

abbrev only_refund : ToolAllowDenyPolicy
only_refund = record { allowed_tools = some ("refund" ∷ []); denied_tools = [] }

abbrev not_listed : PolicyDecision
not_listed = answer "tool_allow_deny" "Tool is not in the allow list: pay."

tool_allow_deny-AllowsIf_example :
    AllowsIf ((¬ In {A = String} "pay" []) × Inside (some ("refund" ∷ [])) "pay") deny not_listed
unfolding tool_allow_deny make_decision allow_decision validate_constraints draw ◌>>=◌
tool_allow_deny-AllowsIf_example =
    tool_allow_deny-AllowsIf host action contract end only_refund 0 2 not_listed refl

abbrev needs_two : RequiredPermissionPolicy
needs_two = record { required_permissions = ("pay", "write" ∷ "admin" ∷ []) ∷ [] }

abbrev reader : JsonObject
reader = field "permissions" (list (cons (str "read") nil)) end

abbrev lacking : PolicyDecision
lacking = answer "required_permission" "Missing required permissions: admin, write."

required_permission_lacking :
    AllowsIf (Holds (required needs_two "pay") (string_set (get "permissions" reader))) deny lacking
unfolding required_permission make_decision allow_decision validate_constraints draw ◌>>=◌
required_permission_lacking =
    required_permission-AllowsIf host action contract reader needs_two 0 2 lacking refl

abbrev above_high : RiskApprovalPolicy
above_high = record { minimum_risk = high }

abbrev wants_approval : PolicyDecision
wants_approval = record (answer "risk_approval" "Risk level requires approval: critical.") {
  decision_type = require_approval;
  risk_level = critical;
}

critical_risk_asks :
    AllowsIf (¬ (risk_rank high ≤ risk_rank critical)) require_approval wants_approval
unfolding risk_approval make_decision allow_decision validate_constraints draw ◌>>=◌
critical_risk_asks =
    risk_approval-AllowsIf host action risky_contract end above_high 0 2 wants_approval refl

-- A threshold of 10.0.
abbrev up_to_ten : NumericApprovalThresholdPolicy
up_to_ten = record { field = "amount"; threshold = finite (pos (10 * units_per_one)); tools = none }

abbrev allowed : PolicyDecision
allowed = record (answer "numeric_threshold" "Policy allowed the action.") { decision_type = allow }

small_payment_allowed :
    (n : Number) × (number_argument (get "amount" action.arguments) ≡ some n)
    × (number_lt (Number.float (finite (pos (10 * units_per_one)))) n ≡ false)
unfolding numeric_threshold make_decision allow_decision validate_constraints draw ◌>>=◌
    units_per_one
small_payment_allowed =
    numeric_threshold_allows host action contract end up_to_ten 0 2 allowed refl refl refl
