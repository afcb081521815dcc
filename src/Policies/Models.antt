-- ===== src/Policies/Models.antt =====
-- policies/models.py.
use agent_actum.Base.{
  ℕ, String, text_eq, not, if◌then◌else◌, List, map, is_empty, distinct, arith, ◌≡◌, true,
}
use agent_actum.Model.Enums.{RiskLevel, PolicyDecisionType, is_allow_with_constraints}
use agent_actum.Model.Json.{JsonObject}
use agent_actum.Model.Exec.{Result, ok, err, value_error}

pub record PolicyConstraint : Type 0 where
  pub name : String
  pub parameters : JsonObject

pub record PolicyDecision : Type 0 where
  pub decision_id : ℕ
  pub intent_id : ℕ
  pub decision_type : PolicyDecisionType
  pub risk_level : RiskLevel
  pub policy_name : String
  pub policy_version : String
  pub reason : String
  pub decided_at : ℕ
  pub constraints : List PolicyConstraint

abbrev pub constraint_names : List PolicyConstraint → List String
constraint_names cs = map (λ c. c.name) cs

-- The last test of the validator: no two constraints have one name.
abbrev unique_names : PolicyDecision → Result PolicyDecision
unique_names d =
    if distinct (constraint_names d.constraints)
    then ok d
    else err (value_error "constraint names must be unique")

unfoldable pub validate_constraints : PolicyDecision → Result PolicyDecision
validate_constraints d =
    let has_constraints = not (is_empty d.constraints) in
    if is_allow_with_constraints d.decision_type
    then (if has_constraints
        then unique_names d
        else err (value_error "ALLOW_WITH_CONSTRAINTS requires constraints"))
    else if has_constraints
    then err (value_error "constraints require ALLOW_WITH_CONSTRAINTS")
    else unique_names d

-- A coherent decision: it has constraints exactly when it is a constrained allow, under distinct
-- names.
pub record IsCoherent (d : PolicyDecision) : Type 0 where
  pub constrained : is_allow_with_constraints d.decision_type ≡ not (is_empty d.constraints)
  pub unique : distinct (constraint_names d.constraints) ≡ true

-- The validator returns its model unchanged, and only a coherent one.
pub validate_constraints-IsCoherent :
    (d e : PolicyDecision) → validate_constraints d ≡ ok e → (e ≡ d) × IsCoherent d
unfolding validate_constraints
validate_constraints-IsCoherent d e h = ground arith

-- It accepts every coherent model.
pub IsCoherent-validate_constraints :
    (d : PolicyDecision) → IsCoherent d → validate_constraints d ≡ ok d
unfolding validate_constraints
IsCoherent-validate_constraints d c = ground arith
