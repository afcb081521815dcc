-- ===== src/Policies/Engine/Risk.antt =====
-- The effective risk of a composed decision.
use agent_actum.Base.{ℕ, ◌≤◌, List, [], ◌∷◌, arith, All}
use native.Mathlib.Nat.{le_trans, le_refl}
use agent_actum.Model.Enums.{RiskLevel, risk_rank}
use agent_actum.Policies.Engine.{higher_risk, max_risk}

higher_risk_left : (a b : RiskLevel) → risk_rank a ≤ risk_rank (higher_risk a b)
higher_risk_left a b = ground arith

higher_risk_right : (a b : RiskLevel) → risk_rank b ≤ risk_rank (higher_risk a b)
higher_risk_right a b = ground arith

pub le-max_risk : (r : RiskLevel) (rs : List RiskLevel) → risk_rank r ≤ risk_rank (max_risk r rs)
unfolding max_risk
le-max_risk r [] = le_refl _
le-max_risk r (s ∷ rest) = le_trans (higher_risk_left r s) (le-max_risk (higher_risk r s) rest)

-- No level of the list is above the greatest.
pub max_risk-All :
    (r : RiskLevel) (rs : List RiskLevel) → All (λ s. risk_rank s ≤ risk_rank (max_risk r rs)) rs
unfolding max_risk
max_risk-All r [] = tt
max_risk-All r (s ∷ rest) = (
  le_trans (higher_risk_right r s) (le-max_risk (higher_risk r s) rest),
  max_risk-All (higher_risk r s) rest,
)

-- A bound on the start and on the list bounds the greatest.
pub max_risk-le :
    (n : ℕ) (r : RiskLevel) (rs : List RiskLevel)
    → risk_rank r ≤ n
    → All (λ s. risk_rank s ≤ n) rs
    → risk_rank (max_risk r rs) ≤ n
unfolding max_risk
max_risk-le n r [] b bs = b
max_risk-le n r (s ∷ rest) b bs = max_risk-le n (higher_risk r s) rest (ground arith) bs.1
