-- ===== src/Policies/Rules.antt =====
-- policies/engine.py: the policies that come with the engine. A frozen set is a list without
-- repetitions; the tests read only which texts it holds.
pub mod Laws
pub mod Tests
use Prim.Native.String.{compare as compare_text, ◌++◌ as join}
use Prim.Native.Nat.{Ordering}
use agent_actum.Base.{
  ℕ, String, text_eq, ◌==◌, Bool, true, false, not, if◌then◌else◌, Option, none, some, List, [],
  ◌∷◌, map, member, select, is_empty, Dict, lookup,
}
use agent_actum.Model.Enums.{
  RiskLevel, PolicyDecisionType, allow, deny, require_approval, risk_value,
}
use agent_actum.Model.Number.{Float, Number, number_lt}
use agent_actum.Model.Json.{Value, get, texts, as_number}
use agent_actum.Model.Exec.{Exec, pure, ◌>>=◌}
use agent_actum.Model.Host.{Host}
use agent_actum.Contracts.Models.{ActionIntent, ToolContract}
use agent_actum.Policies.Engine.{
  Reply, decision, Policy, make_decision, allow_decision, risk_at_least,
}

-- `frozenset(xs)`.
abbrev pub frozenset : List String → List String
frozenset [] = []
frozenset (x ∷ xs) = let rest = frozenset xs in if member x rest then rest else x ∷ rest

-- A text that is no longer than the other in the order of code points.
abbrev text_le : String → String → Bool
text_le s t = elim (compare_text s t) [ Ordering.gt ↦ false | _ ↦ true ]

abbrev insert_text : String → List String → List String
insert_text s [] = s ∷ []
insert_text s (t ∷ ts) = if text_le s t then s ∷ t ∷ ts else t ∷ insert_text s ts

-- `sorted(xs)`.
abbrev pub sorted : List String → List String
sorted [] = []
sorted (s ∷ ss) = insert_text s (sorted ss)

-- `", ".join(xs)`.
abbrev pub comma_join : List String → String
comma_join [] = ""
comma_join (s ∷ []) = s
comma_join (s ∷ t ∷ rest) = join s (join ", " (comma_join (t ∷ rest)))

module _ (h : Host) (action : ActionIntent) (contract : ToolContract) where
  -- A policy's decision at the contract's own risk, and its `_allow`.
  abbrev pub decide : PolicyDecisionType → String → String → Exec ℕ Reply
  decide ty name reason t =
      (make_decision h action ty contract.risk_level name reason [] >>= λ d. pure (decision d)) t

  abbrev pub permit : String → Exec ℕ Reply
  permit name t = (allow_decision h action contract name >>= λ d. pure (decision d)) t

pub record ToolAllowDenyPolicy : Type 0 where
  pub allowed_tools : Option (List String)
  pub denied_tools : List String

abbrev pub outside : Option (List String) → String → Bool
outside none name = false
outside (some tools) name = not (member name tools)

unfoldable pub tool_allow_deny : Host → ToolAllowDenyPolicy → Policy
tool_allow_deny h p action contract context t =
    if member action.tool_name p.denied_tools
    then decide h action contract deny "tool_allow_deny"
        (join "Tool denied by policy: " (join action.tool_name ".")) t
    else if outside p.allowed_tools action.tool_name
    then decide h action contract deny "tool_allow_deny"
        (join "Tool is not in the allow list: " (join action.tool_name ".")) t
    else permit h action contract "tool_allow_deny" t

-- `_string_set`.
abbrev pub string_set : Option Value → Option (List String)
string_set (some (Value.list items)) = texts items
string_set _ = none

pub record RequiredPermissionPolicy : Type 0 where
  pub required_permissions : Dict String (List String)

-- `self._required_permissions.get(tool_name, frozenset())`.
abbrev pub required : RequiredPermissionPolicy → String → List String
required p name = elim (lookup name p.required_permissions) [ none ↦ [] | some ps ↦ ps ]

-- `required - permissions`.
abbrev pub without : List String → List String → List String
without wanted granted = select (λ s. not (member s granted)) wanted

module _ (h : Host) (action : ActionIntent) (contract : ToolContract) where
  abbrev pub check_missing : List String → Exec ℕ Reply
  check_missing missing t =
      if is_empty missing
      then permit h action contract "required_permission" t
      else decide h action contract deny "required_permission"
          (join "Missing required permissions: " (join (comma_join (sorted missing)) ".")) t

  abbrev pub check_permissions : List String → Option (List String) → Exec ℕ Reply
  check_permissions wanted none t =
      decide h action contract deny "required_permission"
        "Trusted context does not contain a valid permissions list." t
  check_permissions wanted (some granted) t = check_missing (without wanted granted) t

unfoldable pub required_permission : Host → RequiredPermissionPolicy → Policy
required_permission h p action contract context t =
    let wanted = required p action.tool_name in
    if is_empty wanted
    then permit h action contract "required_permission" t
    else check_permissions h action contract wanted (string_set (get "permissions" context)) t

pub record RiskApprovalPolicy : Type 0 where
  pub minimum_risk : RiskLevel

unfoldable pub risk_approval : Host → RiskApprovalPolicy → Policy
risk_approval h p action contract context t =
    if risk_at_least contract.risk_level p.minimum_risk
    then decide h action contract require_approval "risk_approval"
        (join "Risk level requires approval: " (join (risk_value contract.risk_level) ".")) t
    else permit h action contract "risk_approval" t

-- `threshold` is what `float(threshold)` returned when the policy was made.
pub record NumericApprovalThresholdPolicy : Type 0 where
  pub field : String
  pub threshold : Float
  pub tools : Option (List String)

-- `_is_number`, with the number.
abbrev pub number_argument : Option Value → Option Number
number_argument none = none
number_argument (some v) = as_number v

module _ (h : Host) (p : NumericApprovalThresholdPolicy) (action : ActionIntent)
    (contract : ToolContract) where
  abbrev pub check_number : Option Number → Exec ℕ Reply
  check_number none t =
      decide h action contract deny "numeric_threshold"
        (join "Argument is not a valid number: " (join p.field ".")) t
  check_number (some n) t =
      if number_lt (Number.float p.threshold) n
      then decide h action contract require_approval "numeric_threshold"
          (join "Argument exceeds approval threshold: " (join p.field ".")) t
      else permit h action contract "numeric_threshold" t

unfoldable pub numeric_threshold : Host → NumericApprovalThresholdPolicy → Policy
numeric_threshold h p action contract context t =
    if outside p.tools action.tool_name
    then permit h action contract "numeric_threshold" t
    else check_number h p action contract (number_argument (get p.field action.arguments)) t
