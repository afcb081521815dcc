-- ===== src/Policies/Engine/Decisions.antt =====
-- What `_decision` builds: the parts of the decision that it returns, and when it returns one.
use agent_actum.Base.{ℕ, suc, String, ◌≡◌, some, List, arith}
use agent_actum.Model.Enums.{RiskLevel, PolicyDecisionType}
use agent_actum.Model.Exec.{ok, ◌>>=◌}
use agent_actum.Model.Host.{Host, draw, short_text, long_text}
use agent_actum.Contracts.Models.{ActionIntent}
use agent_actum.Policies.Models.{PolicyConstraint, PolicyDecision, IsCoherent, validate_constraints}
use agent_actum.Policies.Engine.{make_decision}

-- The decision carries what it was built from, and is coherent.
pub record Built (action : ActionIntent) (ty : PolicyDecisionType) (level : RiskLevel)
    (cs : List PolicyConstraint) (d : PolicyDecision) : Type 0 where
  pub bound : d.intent_id ≡ action.intent_id
  pub type : d.decision_type ≡ ty
  pub risk : d.risk_level ≡ level
  pub carried : d.constraints ≡ cs
  pub coherent : IsCoherent d

module _ (h : Host) (a : ActionIntent) where
  pub make_decision-Built :
      (ty : PolicyDecisionType) (level : RiskLevel) (name reason : String)
      (cs : List PolicyConstraint) (t u : ℕ) (d : PolicyDecision)
      → make_decision h a ty level name reason cs t ≡ (ok d, u)
      → Built a ty level cs d
  unfolding make_decision validate_constraints draw ◌>>=◌
  make_decision-Built ty level name reason cs t u d e = ground arith

  -- The decision that is stored for texts that pydantic keeps as they are.
  abbrev pub stored_decision :
      PolicyDecisionType → RiskLevel → String → String → List PolicyConstraint → ℕ → PolicyDecision
  stored_decision ty level name reason cs t = record {
    decision_id = h.uuid4 t;
    intent_id = a.intent_id;
    decision_type = ty;
    risk_level = level;
    policy_name = name;
    policy_version = "1.0.0";
    reason = reason;
    decided_at = h.utc_now (suc t);
    constraints = cs;
  }

  pub make_decision_stored :
      (ty : PolicyDecisionType) (level : RiskLevel) (name reason : String)
      (cs : List PolicyConstraint) (t : ℕ)
      → h.accept short_text name ≡ some name
      → h.accept short_text "1.0.0" ≡ some "1.0.0"
      → h.accept long_text reason ≡ some reason
      → make_decision h a ty level name reason cs t
        ≡ (validate_constraints (stored_decision ty level name reason cs t), suc (suc t))
  unfolding make_decision draw ◌>>=◌
  make_decision_stored ty level name reason cs t p q r = ground arith
