-- ===== src/Policies/Engine/FailClosed.antt =====
-- What an action must have passed before the engine lets it proceed.
use agent_actum.Base.{
  ℕ, suc, nat_eq, ◌==◌, String, ◌≡◌, ◌≢◌, refl, ◌∙◌, Bool, true, false, ◌≤◌, ◌<◌, Option, none,
  some, List, [], ◌∷◌, ◌++◌, arith, inl, inr, Bool-cases, All,
}
use agent_actum.Model.Enums.{
  RiskLevel, critical, risk_rank, PolicyDecisionType, allow, deny, require_approval,
  allow_with_constraints,
}
use agent_actum.Model.Json.{JsonObject}
use agent_actum.Model.Exec.{Error, Result, ok, err}
use agent_actum.Model.Host.{Host, short_text, long_text}
use agent_actum.Contracts.Models.{
  ActionIntent, ToolContract, Bound, action_matches_contract, action_matches_contract_iff,
}
use agent_actum.Policies.Models.{PolicyDecision, validate_constraints}
use agent_actum.Policies.Engine.{
  decision, not_a_decision, Policy, asks_approval, decision_risks, collect, refuse, evaluate,
}
use agent_actum.Policies.Engine.Decisions.{
  make_decision-Built, stored_decision, make_decision_stored,
}
use agent_actum.Policies.Engine.Collect.{
  Collected, done, reply, collect-Composed, collect-reply, refuse_deny,
}
use agent_actum.Policies.Engine.Verdict.{compose-Meets, denies, verdict, effective}
use agent_actum.Policies.Engine.Risk.{le-max_risk, max_risk-All}

-- Decisions that the engine lets an action proceed on without an approval.
abbrev pub permits : PolicyDecisionType → Bool
permits allow = true
permits allow_with_constraints = true
permits _ = false

permits-ne-deny : (ty : PolicyDecisionType) → permits ty ≡ true → ty ≢ deny
permits-ne-deny ty h = ground arith

-- A policy's decision that leaves the action alone: no denial, no request for approval, and a risk
-- below `high`.
pub record Lenient (d : PolicyDecision) : Type 0 where
  pub undenied : d.decision_type ≢ deny
  pub unasked : d.decision_type ≢ require_approval
  pub below_high : risk_rank d.risk_level < 2

Lenient-All :
    (n : ℕ) (ds : List PolicyDecision)
    → n < 2
    → denies ds ≡ false
    → asks_approval ds ≡ false
    → All (λ s. risk_rank s ≤ n) (decision_risks ds)
    → All Lenient ds
Lenient-All n [] b nd na rs = tt
Lenient-All n (d ∷ ds) b nd na rs = (
  record { undenied = ground arith; unasked = ground arith; below_high = omega (arith, rs.0) },
  Lenient-All n ds b (ground arith) (ground arith) rs.1,
)

verdict-permits :
    (r : RiskLevel) (ds : List PolicyDecision)
    → permits (verdict r ds) ≡ true
    → (denies ds ≡ false) × (asks_approval ds ≡ false) × (risk_rank r < 2)
verdict-permits r ds p = ground arith

-- What an action has passed on which the engine permits.
pub record Cleared (a : ActionIntent) (c : ToolContract) (ctx : JsonObject) (ps : List Policy)
    (t : ℕ) : Type 0 where
  pub bound : Bound a c
  pub low_risk : risk_rank c.risk_level < 2
  pub answers : List PolicyDecision
  pub end : ℕ
  pub collected : Collected a c ctx ps t answers end
  pub lenient : All Lenient answers

module _ (h : Host) (ps : List Policy) (a : ActionIntent) (ctx : JsonObject) (t v : ℕ) where
  collect-Cleared :
      (c : ToolContract) (d : PolicyDecision)
      → Bound a c
      → collect h a c ctx ps [] t ≡ (ok d, v)
      → permits d.decision_type ≡ true
      → Cleared a c ctx ps t
  collect-Cleared c d b e p =
      let (ds, u, r, q) = collect-Composed h a c ctx ps [] t v d (permits-ne-deny _ p) e in
      let m = compose-Meets h a c ds u v d q in
      let (nd, na, low) = verdict-permits (effective h a c ds) ds (rw m.type at p) in
      let base = le-max_risk c.risk_level (decision_risks ds) in
      record {
        bound = b;
        low_risk = omega arith;
        answers = ds;
        end = u;
        collected = r;
        lenient = Lenient-All _ ds low nd na (max_risk-All c.risk_level (decision_risks ds));
      }

  -- If the engine answers with a decision that lets the action proceed without approval, then the
  -- action names a registered contract, is bound to it by identifier, name and version, the
  -- contract's risk is below `high`, and every policy returned a decision on this very action that
  -- neither denies nor asks for approval and has a risk below `high`.
  pub evaluate-permits :
      (oc : Option ToolContract) (d : PolicyDecision)
      → evaluate h ps a oc ctx t ≡ (ok d, v)
      → permits d.decision_type ≡ true
      → (c : ToolContract) × (oc ≡ some c) × Cleared a c ctx ps t
  unfolding evaluate
  evaluate-permits none d e p = absurd (
      permits-ne-deny _ p (make_decision-Built h a deny critical "policy_engine" _ [] t v d e).type)
  evaluate-permits (some c) d e p = elim (Bool-cases (action_matches_contract a c)) [
    | inl match ↦ (
      c,
      refl,
      collect-Cleared c d ((action_matches_contract_iff a c).0 match) (rw (match, evaluate) at e) p,
    )
    | inr mismatch ↦
        absurd (permits-ne-deny _ p (refuse_deny h a c ctx _ t v d (rw (mismatch, evaluate) at e)))
  ]

-- A policy that fails: it raises, returns no decision, or decides on another action.
pub data Fails (a : ActionIntent) (ctx : JsonObject) (c : ToolContract) (p : Policy) (u : ℕ)
    : Type 0 where
  raises : (x : Error) (w : ℕ) → p a c ctx u ≡ (err x, w) → Fails a ctx c p u
  no_decision : (w : ℕ) → p a c ctx u ≡ (ok not_a_decision, w) → Fails a ctx c p u
  misbound :
      (e : PolicyDecision) (w : ℕ)
      → p a c ctx u ≡ (ok (decision e), w)
      → e.intent_id ≢ a.intent_id
      → Fails a ctx c p u

-- The texts that the engine writes into its own denials are stored as they are.
pub record EngineTexts (h : Host) : Type 0 where
  pub name : h.accept short_text "policy_engine" ≡ some "policy_engine"
  pub version : h.accept short_text "1.0.0" ≡ some "1.0.0"
  pub failed :
      h.accept long_text "Policy evaluation failed closed."
      ≡ some "Policy evaluation failed closed."
  pub invalid :
      h.accept long_text "Policy returned an invalid decision."
      ≡ some "Policy returned an invalid decision."
  pub misbound :
      h.accept long_text "Policy decision was bound to the wrong action intent."
      ≡ some "Policy decision was bound to the wrong action intent."

module _ (h : Host) (a : ActionIntent) (c : ToolContract) (ctx : JsonObject) where
  abbrev pub Denied : Result PolicyDecision × ℕ → Type 0
  Denied x =
      (d : PolicyDecision) × (v : ℕ) × (x ≡ (ok d, v))
      × (d.decision_type ≡ deny)
      × (d.intent_id ≡ a.intent_id)

  refuse-Denied :
      (reason : String) (t : ℕ)
      → EngineTexts h
      → h.accept long_text reason ≡ some reason
      → Denied (refuse h a c reason t)
  refuse-Denied reason t x r = (
    stored_decision h a deny c.risk_level "policy_engine" reason [] t,
    suc (suc t),
    make_decision_stored h a deny c.risk_level "policy_engine" reason [] t x.name x.version r
        ∙ (unfold validate_constraints in refl),
    refl,
    refl,
  )

  collect_failure :
      (p : Policy) (ps : List Policy) (acc : List PolicyDecision) (u : ℕ)
      → EngineTexts h
      → Fails a ctx c p u
      → Denied (collect h a c ctx (p ∷ ps) acc u)
  unfolding collect
  collect_failure p ps acc u x (raises _ w e) = rw e (refuse-Denied _ w x x.failed)
  collect_failure p ps acc u x (no_decision w e) = rw e (refuse-Denied _ w x x.invalid)
  collect_failure p ps acc u x (misbound e w ran other) = rw ran (
      let ne : (e.intent_id == a.intent_id) ≡ false = ground arith in
      rw ne (refuse-Denied _ w x x.misbound))

  collect_after :
      {ps : List Policy} {ds : List PolicyDecision} {t u : ℕ} (p : Policy) (qs : List Policy)
      (acc : List PolicyDecision)
      → EngineTexts h
      → Collected a c ctx ps t ds u
      → Fails a ctx c p u
      → Denied (collect h a c ctx (ps ++ p ∷ qs) acc t)
  collect_after p qs acc x done f = collect_failure p qs acc _ x f
  collect_after p qs acc x (reply {d = d} ran b r) f =
      rw (collect-reply h a c ctx _ _ acc d _ _ ran b) (collect_after p qs (acc ++ d ∷ []) x r f)

  -- A policy that raises, returns no decision or decides on another action makes the engine deny
  -- the action, whatever the policies before it decided and whatever policies stand behind it.
  pub evaluate_policy_failure :
      {ps : List Policy} {ds : List PolicyDecision} {t u : ℕ} (p : Policy) (qs : List Policy)
      → EngineTexts h
      → Bound a c
      → Collected a c ctx ps t ds u
      → Fails a ctx c p u
      → Denied (evaluate h (ps ++ p ∷ qs) a (some c) ctx t)
  unfolding evaluate
  evaluate_policy_failure p qs x b r f =
      rw ((action_matches_contract_iff a c).1 b) (collect_after p qs [] x r f)
