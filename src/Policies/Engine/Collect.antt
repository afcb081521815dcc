-- ===== src/Policies/Engine/Collect.antt =====
-- The loop over the policies: which runs reach `_compose`, and with which decisions.
use agent_actum.Base.{
  ℕ, String, ◌≡◌, refl, ◌≢◌, ◌∙◌, ap, sym, nat_eq, ◌==◌, List, [], ◌∷◌, ◌++◌, arith, inl, inr,
  Bool-cases,
}
use mathlib.Core.List.{append-nil, append_assoc}
use agent_actum.Model.Enums.{deny}
use agent_actum.Model.Json.{JsonObject}
use agent_actum.Model.Exec.{Result, Exec, ok, err}
use agent_actum.Model.Host.{Host}
use agent_actum.Contracts.Models.{ActionIntent, ToolContract}
use agent_actum.Policies.Models.{PolicyDecision}
use agent_actum.Policies.Engine.{
  Reply, decision, not_a_decision, Policy, compose, refuse, absorb, collect,
}
use agent_actum.Policies.Engine.Decisions.{make_decision-Built}

-- Every policy of the list, run in turn, returned a decision on this very action.
pub data Collected (a : ActionIntent) (c : ToolContract) (ctx : JsonObject)
    : List Policy → ℕ → List PolicyDecision → ℕ → Type 0 where
  done : {t : ℕ} → Collected a c ctx [] t [] t
  reply :
      {p : Policy} {ps : List Policy} {d : PolicyDecision} {ds : List PolicyDecision} {t u v : ℕ}
      → p a c ctx t ≡ (ok (decision d), u)
      → d.intent_id ≡ a.intent_id
      → Collected a c ctx ps u ds v
      → Collected a c ctx (p ∷ ps) t (d ∷ ds) v

module _ (h : Host) (a : ActionIntent) (c : ToolContract) (ctx : JsonObject) where
  absorb_bound :
      (d : PolicyDecision) (rest : PolicyDecision → Exec ℕ PolicyDecision) (t : ℕ)
      → d.intent_id ≡ a.intent_id
      → absorb h a c (ok (decision d)) rest t ≡ rest d t
  absorb_bound d rest t b = ground arith

  -- One turn of the loop, by the policy's answer.
  pub collect-reply :
      (p : Policy) (ps : List Policy) (acc : List PolicyDecision) (d : PolicyDecision) (t u : ℕ)
      → p a c ctx t ≡ (ok (decision d), u)
      → d.intent_id ≡ a.intent_id
      → collect h a c ctx (p ∷ ps) acc t ≡ collect h a c ctx ps (acc ++ d ∷ []) u
  unfolding collect
  collect-reply p ps acc d t u e b =
      rw e (absorb_bound d (λ x. collect h a c ctx ps (acc ++ x ∷ [])) u b)

  -- A run in which every policy answers ends in `_compose`, over the answers in order.
  pub collect-compose :
      {ps : List Policy} (acc : List PolicyDecision) {ds : List PolicyDecision} {t u : ℕ}
      → Collected a c ctx ps t ds u
      → collect h a c ctx ps acc t ≡ compose h a c (acc ++ ds) u
  unfolding collect
  collect-compose acc done = rw append-nil
  collect-compose acc (reply {p} {ps} {d} {ds} {t} {u} {v} e b r) =
      collect-reply p ps acc d t u e b
      ∙ collect-compose (acc ++ d ∷ []) r
      ∙ ap (λ l. compose h a c l v) (append_assoc acc (d ∷ []) ds)

  -- A denial by the engine is a denial.
  pub refuse_deny :
      (reason : String) (t v : ℕ) (d : PolicyDecision)
      → refuse h a c reason t ≡ (ok d, v)
      → d.decision_type ≡ deny
  refuse_deny reason t v d e =
      (make_decision-Built h a deny c.risk_level "policy_engine" reason [] t v d e).type

  -- What a run of the loop from `acc` that does not deny comes from.
  abbrev pub Composed : List Policy → List PolicyDecision → ℕ → PolicyDecision → ℕ → Type 0
  Composed ps acc t d v =
      (ds : List PolicyDecision) × (u : ℕ) × Collected a c ctx ps t ds u
      × (compose h a c (acc ++ ds) u ≡ (ok d, v))

  absorb_inv :
      (p : Policy) (ps : List Policy) (acc : List PolicyDecision) (t v : ℕ) (d : PolicyDecision)
      → d.decision_type ≢ deny
      → ((acc' : List PolicyDecision) (t' : ℕ)
          → collect h a c ctx ps acc' t' ≡ (ok d, v)
          → Composed ps acc' t' d v)
      → (x : Result Reply × ℕ) → p a c ctx t ≡ x
      → absorb h a c x.0 (λ e. collect h a c ctx ps (acc ++ e ∷ [])) x.1 ≡ (ok d, v)
      → Composed (p ∷ ps) acc t d v
  absorb_inv p ps acc t v d nd ih (err e, u) ran h' = absurd (nd (refuse_deny _ u v d h'))
  absorb_inv p ps acc t v d nd ih (ok not_a_decision, u) ran h' =
      absurd (nd (refuse_deny _ u v d h'))
  absorb_inv p ps acc t v d nd ih (ok (decision e), u) ran h' =
      elim (Bool-cases (e.intent_id == a.intent_id)) [
        | inl same ↦
            let b : e.intent_id ≡ a.intent_id = ground arith in
            let (ds, w, r, q) =
              ih (acc ++ e ∷ []) u
                (sym (absorb_bound e (λ x. collect h a c ctx ps (acc ++ x ∷ [])) u b) ∙ h') in
            (e ∷ ds, w, reply ran b r, rw (← append_assoc acc (e ∷ []) ds) q)
        | inr other ↦ absurd (nd (refuse_deny _ u v d (rw other at h')))
      ]

  pub collect-Composed :
      (ps : List Policy) (acc : List PolicyDecision) (t v : ℕ) (d : PolicyDecision)
      → d.decision_type ≢ deny
      → collect h a c ctx ps acc t ≡ (ok d, v)
      → Composed ps acc t d v
  unfolding collect
  collect-Composed [] acc t v d nd e = ([], t, done, rw append-nil e)
  collect-Composed (p ∷ ps) acc t v d nd e =
      absorb_inv p ps acc t v d nd (λ acc' t'. collect-Composed ps acc' t' v d nd) (p a c ctx t)
        refl e
