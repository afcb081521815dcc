-- ===== src/Policies/Engine/Verdict.antt =====
-- `_compose` against a specification that speaks of the decisions as a collection: whether one
-- denies, whether one asks for approval, the greatest risk, and whether constraints were given.
use agent_actum.Base.{
  ℕ, ◌≡◌, refl, Bool, true, false, ◌||◌, List, [], ◌∷◌, any, is_some, is_empty, if◌then◌else◌,
  arith, inl, inr, Bool-cases, Option-cases,
}
use agent_actum.Model.Enums.{
  RiskLevel, high, PolicyDecisionType, allow, deny, require_approval, allow_with_constraints,
  is_deny,
}
use agent_actum.Model.Exec.{ok}
use agent_actum.Model.Host.{Host}
use agent_actum.Contracts.Models.{ActionIntent, ToolContract}
use agent_actum.Policies.Models.{PolicyConstraint, PolicyDecision}
use agent_actum.Policies.Engine.{
  compose, compose_undenied, first_denial, asks_approval, constraints_of, max_risk, decision_risks,
  risk_at_least,
}
use agent_actum.Policies.Engine.Decisions.{Built, make_decision-Built}

abbrev pub denies : List PolicyDecision → Bool
denies ds = any (λ d. is_deny d.decision_type) ds

-- The composed decision type, by the effective risk and the policies' decisions.
abbrev pub verdict : RiskLevel → List PolicyDecision → PolicyDecisionType
verdict risk ds =
    if denies ds
    then deny
    else if risk_at_least risk high || asks_approval ds
    then require_approval
    else if is_empty (constraints_of ds)
    then allow
    else allow_with_constraints

-- The constraints that go with a composed decision type.
abbrev pub granted : PolicyDecisionType → List PolicyDecision → List PolicyConstraint
granted allow_with_constraints ds = constraints_of ds
granted _ ds = []

pub first_denial-denies : (ds : List PolicyDecision) → is_some (first_denial ds) ≡ denies ds
unfolding first_denial
first_denial-denies [] = refl
first_denial-denies (d ∷ ds) = ground (arith, first_denial-denies ds)

module _ (h : Host) (a : ActionIntent) (c : ToolContract) where
  abbrev pub effective : List PolicyDecision → RiskLevel
  effective ds = max_risk c.risk_level (decision_risks ds)

  -- A composed decision has the type, the risk and the constraints of the specification.
  abbrev pub Meets : List PolicyDecision → PolicyDecision → Type 0
  Meets ds d = let v = verdict (effective ds) ds in Built a v (effective ds) (granted v ds) d

  compose_undenied-Meets :
      (ds : List PolicyDecision) (t u : ℕ) (d : PolicyDecision)
      → denies ds ≡ false
      → compose_undenied h a c ds (effective ds) t ≡ (ok d, u)
      → Meets ds d
  compose_undenied-Meets ds t u d nd e =
      elim (Bool-cases (risk_at_least (effective ds) high || asks_approval ds)) [
        | inl asked ↦
            rw (nd, asked)
              (make_decision-Built h a require_approval (effective ds) _ _ [] t u d (rw asked at e))
        | inr clear ↦ elim (Bool-cases (is_empty (constraints_of ds))) [
          | inl free ↦
              rw (nd, clear, free)
                (make_decision-Built h a allow (effective ds) _ _ [] t u d (rw (clear, free) at e))
          | inr bound ↦
              rw (nd, clear, bound)
                (make_decision-Built h a allow_with_constraints (effective ds) _ _
                  (constraints_of ds) t u d (rw (clear, bound) at e))
        ]
      ]

  pub compose-Meets :
      (ds : List PolicyDecision) (t u : ℕ) (d : PolicyDecision)
      → compose h a c ds t ≡ (ok d, u)
      → Meets ds d
  unfolding compose
  compose-Meets ds t u d e = elim (Option-cases (first_denial ds)) [
    | inl clear ↦
        compose_undenied-Meets ds t u d (ground (arith, first_denial-denies ds))
          (rw (clear, compose) at e)
    | inr (x, denied) ↦
        let nd : denies ds ≡ true = ground (arith, first_denial-denies ds) in
        rw nd (
          make_decision-Built h a deny (effective ds) _ x.reason [] t u d
            (rw (denied, compose) at e))
  ]
