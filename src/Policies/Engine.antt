-- ===== src/Policies/Engine.antt =====
-- policies/engine.py: `PolicyEngine.evaluate`, `_compose`, `_decision` and their helpers.
pub mod Decisions
pub mod Collect
pub mod Verdict
pub mod FailClosed
pub mod Risk
pub mod Duplicates
pub mod Order
mod Tests
use agent_actum.Base.{
  ℕ, String, nat_eq, ◌==◌, ltb, leb, Bool, not, ◌||◌, if◌then◌else◌, Option, none, some, List, [],
  ◌∷◌, ◌++◌, map, any, is_empty, is_some,
}
use Prim.Native.String.{◌++◌ as join}
use agent_actum.Model.Enums.{
  RiskLevel, high, critical, risk_rank, PolicyDecisionType, allow, deny, require_approval,
  allow_with_constraints, is_deny, is_require_approval, is_allow_with_constraints,
}
use agent_actum.Model.Json.{JsonObject}
use agent_actum.Model.Exec.{Result, ok, err, Exec, lift, ◌>>=◌}
use agent_actum.Model.Host.{Host, draw, checked, short_text, long_text}
use agent_actum.Contracts.Models.{ActionIntent, ToolContract, action_matches_contract}
use agent_actum.Policies.Models.{PolicyConstraint, PolicyDecision, validate_constraints}

-- What a policy returned: a decision, or an object of another type.
pub data Reply : Type 0 where
  decision : PolicyDecision → Reply
  not_a_decision : Reply

-- The protocol `Policy`. The state counts the draws from the clock and from `uuid4`.
abbrev pub Policy : Type 0
Policy = ActionIntent → ToolContract → JsonObject → Exec ℕ Reply

-- An engine is its tuple of policies, which `__init__` makes of what it is given.
abbrev pub PolicyEngine : Type 0
PolicyEngine = List Policy

-- `max` keeps the first of the greatest.
abbrev pub higher_risk : RiskLevel → RiskLevel → RiskLevel
higher_risk a b = if ltb (risk_rank a) (risk_rank b) then b else a

unfoldable pub max_risk : RiskLevel → List RiskLevel → RiskLevel
max_risk r [] = r
max_risk r (s ∷ rest) = max_risk (higher_risk r s) rest

abbrev pub risk_at_least : RiskLevel → RiskLevel → Bool
risk_at_least actual minimum = leb (risk_rank minimum) (risk_rank actual)

module _ (h : Host) (action : ActionIntent) where
  unfoldable pub make_decision :
      PolicyDecisionType
      → RiskLevel
      → String
      → String
      → List PolicyConstraint
      → Exec ℕ PolicyDecision
  make_decision decision_type risk_level policy_name reason constraints = do
    decision_id ← draw h.uuid4
    decided_at ← draw h.utc_now
    name ← lift (checked h short_text policy_name)
    version ← lift (checked h short_text "1.0.0")
    stored ← lift (checked h long_text reason)
    lift (
        validate_constraints (record {
          decision_id = decision_id;
          intent_id = action.intent_id;
          decision_type = decision_type;
          risk_level = risk_level;
          policy_name = name;
          policy_version = version;
          reason = stored;
          decided_at = decided_at;
          constraints = constraints;
        }))

  unfoldable pub allow_decision : ToolContract → String → Exec ℕ PolicyDecision
  allow_decision contract policy_name =
      make_decision allow contract.risk_level policy_name "Policy allowed the action." []

abbrev pub decision_risks : List PolicyDecision → List RiskLevel
decision_risks ds = map (λ d. d.risk_level) ds

unfoldable pub constraints_of : List PolicyDecision → List PolicyConstraint
constraints_of [] = []
constraints_of (d ∷ ds) =
    let rest = constraints_of ds in
    if is_allow_with_constraints d.decision_type then d.constraints ++ rest else rest

unfoldable pub first_denial : List PolicyDecision → Option PolicyDecision
first_denial [] = none
first_denial (d ∷ ds) = if is_deny d.decision_type then some d else first_denial ds

abbrev pub asks_approval : List PolicyDecision → Bool
asks_approval ds = any (λ d. is_require_approval d.decision_type) ds

module _ (h : Host) (action : ActionIntent) (contract : ToolContract) where
  -- The tests of `_compose` after that for a denial.
  abbrev pub compose_undenied : List PolicyDecision → RiskLevel → Exec ℕ PolicyDecision
  compose_undenied decisions effective_risk t =
      let constraints = constraints_of decisions in
      if risk_at_least effective_risk high || asks_approval decisions
      then make_decision h action require_approval effective_risk "policy_engine"
          "Approval is required before this action may proceed." [] t
      else if not (is_empty constraints)
      then make_decision h action allow_with_constraints effective_risk "policy_engine"
          "Policies allowed the action with constraints." constraints t
      else make_decision h action allow effective_risk "policy_engine"
          "Policies allowed the action." [] t

  unfoldable pub compose : List PolicyDecision → Exec ℕ PolicyDecision
  compose decisions t =
      let effective_risk = max_risk contract.risk_level (decision_risks decisions) in
      elim (first_denial decisions) [
        | some denial ↦
            make_decision h action deny effective_risk "policy_engine" denial.reason [] t
        | none ↦ compose_undenied decisions effective_risk t
      ]

  -- A denial by the engine itself.
  abbrev pub refuse : String → Exec ℕ PolicyDecision
  refuse reason = make_decision h action deny contract.risk_level "policy_engine" reason []

  -- What the loop does with one policy's answer, before the rest of the policies.
  abbrev pub absorb :
      Result Reply → (PolicyDecision → Exec ℕ PolicyDecision) → Exec ℕ PolicyDecision
  absorb (err _) rest t = refuse "Policy evaluation failed closed." t
  absorb (ok not_a_decision) rest t = refuse "Policy returned an invalid decision." t
  absorb (ok (decision d)) rest t =
      if d.intent_id == action.intent_id
      then rest d t
      else refuse "Policy decision was bound to the wrong action intent." t

  -- The loop over the policies, and the composition after it.
  unfoldable pub collect : JsonObject → List Policy → List PolicyDecision → Exec ℕ PolicyDecision
  collect context [] decisions t = compose decisions t
  collect context (policy ∷ rest) decisions t =
      let (answer, t') = policy action contract context t in
      absorb answer (λ d. collect context rest (decisions ++ d ∷ [])) t'

module _ (h : Host) (policies : List Policy) (action : ActionIntent) where
  unfoldable pub evaluate : Option ToolContract → JsonObject → Exec ℕ PolicyDecision
  evaluate none context t =
      make_decision h action deny critical "policy_engine"
        (join "Unknown tool denied: " (join action.tool_name ".")) [] t
  evaluate (some contract) context t =
      if action_matches_contract action contract
      then collect h action contract context policies [] t
      else refuse h action contract "Action intent does not match the supplied contract." t
