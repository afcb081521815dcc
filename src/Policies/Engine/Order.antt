-- ===== src/Policies/Engine/Order.antt =====
-- The verdict and the order in which the policies are registered.
use agent_actum.Base.{
  ℕ, some, sym, ◌≡◌, refl, ◌∙◌, ap, Bool, ◌||◌, ◌&&◌, not, List, [], ◌∷◌, ◌++◌, any, is_empty,
  arith,
}
use mathlib.Core.List.{Perm, Permᴰ}
use mathlib.Core.Logic.{∥∥₁_elim}
use mathlib.Core.HLevel.{×_prop}
use agent_actum.Model.Enums.{
  RiskLevel, PolicyDecisionType, is_allow_with_constraints, is_deny, is_require_approval,
}
use agent_actum.Model.Json.{JsonObject}
use agent_actum.Model.Exec.{ok}
use agent_actum.Model.Host.{Host}
use agent_actum.Contracts.Models.{ActionIntent, ToolContract, Bound, action_matches_contract_iff}
use agent_actum.Policies.Models.{PolicyDecision}
use agent_actum.Policies.Engine.{
  Policy, evaluate, higher_risk, max_risk, decision_risks, constraints_of,
}
use agent_actum.Policies.Engine.Verdict.{verdict, Meets, compose-Meets}
use agent_actum.Policies.Engine.Collect.{Collected, collect-compose}

RiskLevel-set : IsSet RiskLevel
RiskLevel-set = hlevel

PolicyDecisionType-set : IsSet PolicyDecisionType
PolicyDecisionType-set = hlevel

or_swap : (x y z : Bool) → (x || (y || z)) ≡ (y || (x || z))
or_swap x y z = ground arith

any-perm {ℓ} : {A : Type ℓ} (p : A → Bool) {xs ys : List A} → Permᴰ xs ys → any p xs ≡ any p ys
any-perm p Permᴰ.nil = refl
any-perm p (Permᴰ.cons e r) = cc (e, any-perm p r)
any-perm p (Permᴰ.swap {a = a} {b = b} {l = l} e f) = rw (← e, ← f) (or_swap (p a) (p b) (any p l))
any-perm p (Permᴰ.trans r s) = any-perm p r ∙ any-perm p s

higher_risk_swap :
    (r a b : RiskLevel) → higher_risk (higher_risk r a) b ≡ higher_risk (higher_risk r b) a
higher_risk_swap r a b = ground arith

-- Constraints are given exactly when a constrained allow has some.
gives : PolicyDecision → Bool
gives d = is_allow_with_constraints d.decision_type && not (is_empty d.constraints)

is_empty-append {ℓ} :
    {A : Type ℓ} (xs ys : List A) → is_empty (xs ++ ys) ≡ (is_empty xs && is_empty ys)
is_empty-append [] ys = refl
is_empty-append (x ∷ xs) ys = refl

is_empty-constraints_of :
    (ds : List PolicyDecision) → is_empty (constraints_of ds) ≡ not (any gives ds)
unfolding constraints_of gives
is_empty-constraints_of [] = refl
is_empty-constraints_of (d ∷ ds) =
    ground (arith, is_empty-constraints_of ds, is_empty-append d.constraints (constraints_of ds))

max_risk-perm :
    (r : RiskLevel) {ds es : List PolicyDecision}
    → Permᴰ ds es
    → max_risk r (decision_risks ds) ≡ max_risk r (decision_risks es)
unfolding max_risk
max_risk-perm r Permᴰ.nil = refl
max_risk-perm r (Permᴰ.cons {b = b} e p) = rw e (max_risk-perm (higher_risk r b.risk_level) p)
max_risk-perm r (Permᴰ.swap {a = a} {b = b} {l = l} e f) =
    rw (← e, ← f)
      (ap (λ m. max_risk m (decision_risks l)) (higher_risk_swap r a.risk_level b.risk_level))
max_risk-perm r (Permᴰ.trans p q) = max_risk-perm r p ∙ max_risk-perm r q

verdict-permᴰ :
    (r : RiskLevel) {ds es : List PolicyDecision} → Permᴰ ds es → verdict r ds ≡ verdict r es
verdict-permᴰ r {ds} {es} p = cc (
  any-perm (λ d. is_deny d.decision_type) p,
  any-perm (λ d. is_require_approval d.decision_type) p,
  is_empty-constraints_of ds,
  is_empty-constraints_of es,
  any-perm gives p,
)

-- The composed decision type and the effective risk are the same for policies' decisions in any
-- order: they depend on the decisions as a multiset.
pub verdict-perm :
    (r : RiskLevel) (ds es : List PolicyDecision)
    → Perm ds es
    → (max_risk r (decision_risks ds) ≡ max_risk r (decision_risks es))
      × (verdict (max_risk r (decision_risks ds)) ds ≡ verdict (max_risk r (decision_risks es)) es)
verdict-perm r ds es p = ∥∥₁_elim p (×_prop (RiskLevel-set _ _) (PolicyDecisionType-set _ _)) (λ q.
    (max_risk-perm r q, rw (max_risk-perm r q) (verdict-permᴰ (max_risk r (decision_risks es)) q)))

module _ (h : Host) (a : ActionIntent) (c : ToolContract) (b : Bound a c) where
  -- A decision of the engine, where every policy answered, has the verdict and the greatest risk of
  -- the answers.
  evaluate-Meets :
      {ctx : JsonObject} {ps : List Policy} {ds : List PolicyDecision} {t u v : ℕ}
      {d : PolicyDecision}
      → Collected a c ctx ps t ds u
      → evaluate h ps a (some c) ctx t ≡ (ok d, v)
      → Meets h a c ds d
  unfolding evaluate
  evaluate-Meets {ctx} {ps} {ds} {t} {u} {v} {d} answers e =
      let e' = rw ((action_matches_contract_iff a c).1 b, evaluate) at e in
      compose-Meets h a c ds u v d (sym (collect-compose h a c ctx [] answers) ∙ e')

  -- Where the policies of two engines have all answered, and the answers of the one are those of the
  -- other in another order, the decisions that the engines return on the action have the same type
  -- and the same risk level.
  pub evaluate-perm :
      {ctx ctx' : JsonObject} {ps qs : List Policy} {ds es : List PolicyDecision}
      {t u v t' u' v' : ℕ} {d e : PolicyDecision}
      → Collected a c ctx ps t ds u
      → Collected a c ctx' qs t' es u'
      → Perm ds es
      → evaluate h ps a (some c) ctx t ≡ (ok d, v)
      → evaluate h qs a (some c) ctx' t' ≡ (ok e, v')
      → (d.decision_type ≡ e.decision_type) × (d.risk_level ≡ e.risk_level)
  evaluate-perm {ds = ds} {es = es} answers answers' p ran ran' =
      let m = evaluate-Meets answers ran in
      let m' = evaluate-Meets answers' ran' in
      let (risk, type) = verdict-perm c.risk_level ds es p in
      (m.type ∙ (type ∙ sym m'.type), m.risk ∙ (risk ∙ sym m'.risk))
