-- ===== src/Policies/Engine/Duplicates.antt =====
-- The outcome of `evaluate` when every policy answers, and what the model's validator makes of two
-- constraints under one name: it stands outside the loop's `try`.
use agent_actum.Base.{
  ℕ, suc, String, text_eq, ◌≡◌, ◌∙◌, ap, sym, true, false, ◌||◌, Option, none, some, List, [], ◌∷◌,
  arith, inl, inr, Bool-cases, Option-cases, distinct, is_empty, All, if◌then◌else◌,
}
use agent_actum.Model.Enums.{
  high, PolicyDecisionType, allow, deny, require_approval, allow_with_constraints, is_deny,
}
use agent_actum.Model.Json.{JsonObject}
use agent_actum.Model.Exec.{ok, err, value_error}
use agent_actum.Model.Host.{Host, short_text, long_text}
use agent_actum.Contracts.Models.{ActionIntent, ToolContract, Bound, action_matches_contract_iff}
use agent_actum.Policies.Models.{PolicyDecision, validate_constraints, constraint_names}
use agent_actum.Policies.Engine.{
  Policy, compose, compose_undenied, first_denial, asks_approval, constraints_of, risk_at_least,
  evaluate,
}
use agent_actum.Policies.Engine.Decisions.{stored_decision, make_decision_stored}
use agent_actum.Policies.Engine.Collect.{Collected, collect-compose}
use agent_actum.Policies.Engine.Verdict.{denies, verdict, granted, effective, first_denial-denies}

-- The texts of `_compose` are stored as they are, and so is every reason of a policy's decision.
pub record ComposeTexts (h : Host) (ds : List PolicyDecision) : Type 0 where
  pub name : h.accept short_text "policy_engine" ≡ some "policy_engine"
  pub version : h.accept short_text "1.0.0" ≡ some "1.0.0"
  pub approval :
      h.accept long_text "Approval is required before this action may proceed."
      ≡ some "Approval is required before this action may proceed."
  pub constrained :
      h.accept long_text "Policies allowed the action with constraints."
      ≡ some "Policies allowed the action with constraints."
  pub allowed :
      h.accept long_text "Policies allowed the action." ≡ some "Policies allowed the action."
  pub reasons : All (λ d. h.accept long_text d.reason ≡ some d.reason) ds

-- The first denial's reason is one of the reasons.
first_denial-accepted :
    (h : Host) (ds : List PolicyDecision) (x : PolicyDecision)
    → All (λ d. h.accept long_text d.reason ≡ some d.reason) ds
    → first_denial ds ≡ some x
    → h.accept long_text x.reason ≡ some x.reason
unfolding first_denial
first_denial-accepted h [] x rs e = cc
first_denial-accepted h (d ∷ ds) x rs e = elim (Bool-cases (is_deny d.decision_type)) [
  | inl denied ↦ ground (arith, rs.0)
  | inr undenied ↦ first_denial-accepted h ds x rs.1 (rw undenied at e)
]

abbrev denial_reason : Option PolicyDecision → String
denial_reason none = ""
denial_reason (some x) = x.reason

-- The reason of a composed decision.
abbrev pub composed_reason : PolicyDecisionType → List PolicyDecision → String
composed_reason deny ds = denial_reason (first_denial ds)
composed_reason require_approval ds = "Approval is required before this action may proceed."
composed_reason allow_with_constraints ds = "Policies allowed the action with constraints."
composed_reason allow ds = "Policies allowed the action."

module _ (h : Host) (a : ActionIntent) (c : ToolContract) where
  -- The decision that the specification describes, drawn at `u`.
  abbrev pub specified : List PolicyDecision → ℕ → PolicyDecision
  specified ds u =
      let v = verdict (effective h a c ds) ds in
      stored_decision h a v (effective h a c ds) "policy_engine" (composed_reason v ds)
        (granted v ds) u

  compose_undenied_outcome :
      (ds : List PolicyDecision) (u : ℕ)
      → ComposeTexts h ds
      → denies ds ≡ false
      → compose_undenied h a c ds (effective h a c ds) u
        ≡ (validate_constraints (specified ds u), suc (suc u))
  compose_undenied_outcome ds u x nd =
      let e = effective h a c ds in
      elim (Bool-cases (risk_at_least e high || asks_approval ds)) [
        | inl asked ↦
            rw (nd, asked)
              (make_decision_stored h a require_approval e _ _ [] u x.name x.version x.approval)
        | inr clear ↦ elim (Bool-cases (is_empty (constraints_of ds))) [
          | inl free ↦
              rw (nd, clear, free)
                (make_decision_stored h a allow e _ _ [] u x.name x.version x.allowed)
          | inr bound ↦
              rw (nd, clear, bound)
                (make_decision_stored h a allow_with_constraints e _ _ (constraints_of ds) u x.name
                  x.version x.constrained)
        ]
      ]

  specified_denied :
      (ds : List PolicyDecision) (y : PolicyDecision) (u : ℕ)
      → denies ds ≡ true
      → first_denial ds ≡ some y
      → specified ds u ≡ stored_decision h a deny (effective h a c ds) "policy_engine" y.reason [] u
  specified_denied ds y u nd e = rw nd (
      ap (λ o. stored_decision h a deny (effective h a c ds) "policy_engine" (denial_reason o) [] u)
        e)

  compose_outcome :
      (ds : List PolicyDecision) (u : ℕ)
      → ComposeTexts h ds
      → compose h a c ds u ≡ (validate_constraints (specified ds u), suc (suc u))
  unfolding compose
  compose_outcome ds u x = elim (Option-cases (first_denial ds)) [
    | inl clear ↦
        rw (clear, compose)
          (compose_undenied_outcome ds u x (ground (arith, first_denial-denies ds)))
    | inr (y, denied) ↦
        let nd : denies ds ≡ true = ground (arith, first_denial-denies ds) in
        rw (denied, compose)
          (make_decision_stored h a deny (effective h a c ds) _ y.reason [] u x.name x.version
              (first_denial-accepted h ds y x.reasons denied)
            ∙ ap (λ d. (validate_constraints d, suc (suc u)))
                (sym (specified_denied ds y u nd denied)))
  ]

  evaluate_outcome :
      {ps : List Policy} {ctx : JsonObject} {ds : List PolicyDecision} {t u : ℕ}
      → ComposeTexts h ds
      → Bound a c
      → Collected a c ctx ps t ds u
      → evaluate h ps a (some c) ctx t ≡ (validate_constraints (specified ds u), suc (suc u))
  unfolding evaluate
  evaluate_outcome {ctx = ctx} x b r =
      rw ((action_matches_contract_iff a c).1 b)
        (collect-compose h a c ctx [] r ∙ compose_outcome _ _ x)

  -- The validator passes what the engine builds, but for constraint names that occur twice.
  specified_validates :
      (ds : List PolicyDecision) (u : ℕ)
      → validate_constraints (specified ds u) ≡ (
          if distinct (constraint_names (granted (verdict (effective h a c ds) ds) ds))
          then ok (specified ds u)
          else err (value_error "constraint names must be unique"))
  unfolding validate_constraints
  specified_validates ds u = ground arith

  -- If every policy answers, the engine's answer is the specified decision; but if the verdict is
  -- an allow with constraints of which two have one name, the engine raises `ValueError`.
  pub evaluate_answers :
      {ps : List Policy} {ctx : JsonObject} {ds : List PolicyDecision} {t u : ℕ}
      → ComposeTexts h ds
      → Bound a c
      → Collected a c ctx ps t ds u
      → evaluate h ps a (some c) ctx t ≡ (
        (if distinct (constraint_names (granted (verdict (effective h a c ds) ds) ds))
            then ok (specified ds u)
            else err (value_error "constraint names must be unique")),
        suc (suc u),
      )
  evaluate_answers {ds = ds} {u = u} x b r =
      evaluate_outcome x b r ∙ ap (λ z. (z, suc (suc u))) (specified_validates ds u)
