-- ===== src/Policies/Engine/Tests.antt =====
-- Tests of the policy engine, and its theorems at concrete policies.
use mathlib.Core.List.Perm
use agent_actum.Base.{◌≡◌, refl, some, List, [], ◌∷◌, ◌++◌, if◌then◌else◌, distinct, text_eq}
use agent_actum.Samples.{host, contract, action}
use agent_actum.Model.Enums.{medium, allow, deny, allow_with_constraints}
use agent_actum.Model.Json.{end}
use agent_actum.Model.Exec.{ok, err, value_error, type_error, ◌>>=◌}
use agent_actum.Model.Host.{draw}
use agent_actum.Contracts.Models.{ToolContract, Bound, action_matches_contract}
use agent_actum.Policies.Models.{
  PolicyConstraint, PolicyDecision, validate_constraints, constraint_names,
}
use agent_actum.Policies.Engine.{
  decision, Policy, evaluate, collect, compose, make_decision, max_risk, first_denial,
  constraints_of,
}
use agent_actum.Policies.Engine.Collect.{Collected, done, reply}
use agent_actum.Policies.Engine.Verdict.{verdict, granted, effective}
use agent_actum.Policies.Engine.FailClosed.{
  Cleared, raises, EngineTexts, Denied, evaluate-permits, evaluate_policy_failure,
}
use agent_actum.Policies.Engine.Duplicates.{specified, evaluate_answers}
use agent_actum.Policies.Engine.Order.{evaluate-perm}

-- A policy's decision on the sample action.
abbrev allowing : PolicyDecision
allowing = record {
  decision_id = 50;
  intent_id = 1;
  decision_type = allow;
  risk_level = medium;
  policy_name = "p";
  policy_version = "1";
  reason = "fine";
  decided_at = 0;
  constraints = [];
}

abbrev denying : PolicyDecision
denying = record allowing { decision_type = deny; reason = "no" }

abbrev limit : PolicyConstraint
limit = record { name = "limit"; parameters = end }

abbrev constraining : PolicyDecision
constraining = record allowing { decision_type = allow_with_constraints; constraints = limit ∷ [] }

abbrev always : PolicyDecision → Policy
always d _ _ _ t = (ok (decision d), t)

abbrev broken : Policy
broken _ _ _ t = (err (type_error "boom"), t)

abbrev denied : PolicyDecision
denied = record {
  decision_id = 100;
  intent_id = 1;
  decision_type = deny;
  risk_level = medium;
  policy_name = "policy_engine";
  policy_version = "1.0.0";
  reason = "no";
  decided_at = 1;
  constraints = [];
}

evaluate_denies :
    (evaluate host (always allowing ∷ always denying ∷ []) action (some contract) end 0
      ≡ (ok denied, 2))
    × (evaluate host (always denying ∷ always allowing ∷ []) action (some contract) end 0
        ≡ (ok denied, 2))
unfolding evaluate collect compose make_decision max_risk first_denial validate_constraints
    action_matches_contract draw ◌>>=◌
evaluate_denies = (refl, refl)

abbrev bound : Bound action contract
bound = record { same_id = refl; same_name = refl; same_version = refl }

abbrev collected : Collected action contract end (always allowing ∷ []) 0 (allowing ∷ []) 0
collected = reply refl refl done

evaluate-permits_example :
    (c : ToolContract) × (some contract ≡ some c) × Cleared action c end (always allowing ∷ []) 0
unfolding evaluate collect compose make_decision max_risk first_denial validate_constraints
    action_matches_contract draw ◌>>=◌ constraints_of
evaluate-permits_example =
    evaluate-permits host (always allowing ∷ []) action end 0 2 (some contract)
      (record allowing {
        decision_id = 100;
        policy_name = "policy_engine";
        policy_version = "1.0.0";
        reason = "Policies allowed the action.";
        decided_at = 1;
      })
      refl refl

abbrev engine_texts : EngineTexts host
engine_texts = record {
  name = refl;
  version = refl;
  failed = refl;
  invalid = refl;
  misbound = refl;
}

evaluate_policy_failure_example : Denied host action contract end (
    evaluate host
      ((always allowing ∷ []) ++ broken ∷ always allowing ∷ [])
      action
      (some contract)
      end
      0)
evaluate_policy_failure_example =
    evaluate_policy_failure host action contract end broken (always allowing ∷ []) engine_texts
      bound collected (raises (type_error "boom") 0 refl)

-- Two policies that each set a constraint `limit`.
abbrev both_constrain : List PolicyDecision
both_constrain = constraining ∷ constraining ∷ []

evaluate_answers_example :
    evaluate host (always constraining ∷ always constraining ∷ []) action (some contract) end 0 ≡ (
      (if distinct (
            constraint_names (
              granted
                (verdict (effective host action contract both_constrain) both_constrain)
                both_constrain))
          then ok (specified host action contract both_constrain 0)
          else err (value_error "constraint names must be unique")),
      2,
    )
evaluate_answers_example =
    evaluate_answers host action contract {ds = both_constrain} {t = 0} {u = 0}
      (record {
        name = refl;
        version = refl;
        approval = refl;
        constrained = refl;
        allowed = refl;
        reasons = (refl, (refl, tt));
      })
      bound (reply refl refl (reply refl refl done))

-- The engine raises on them.
evaluate_raises :
    evaluate host (always constraining ∷ always constraining ∷ []) action (some contract) end 0
    ≡ (err (value_error "constraint names must be unique"), 2)
unfolding evaluate collect compose make_decision max_risk first_denial validate_constraints
    action_matches_contract draw ◌>>=◌ constraints_of
evaluate_raises = refl

evaluate-perm_example :
    (denied.decision_type ≡ denied.decision_type) × (denied.risk_level ≡ denied.risk_level)
evaluate-perm_example =
    evaluate-perm host action contract bound {ctx = end} {ctx' = end}
      {ps = always allowing ∷ always denying ∷ []} {qs = always denying ∷ always allowing ∷ []}
      {ds = allowing ∷ denying ∷ []} {es = denying ∷ allowing ∷ []} {t = 0} {u = 0} {v = 2} {t' = 0}
      {u' = 0} {v' = 2} {d = denied} {e = denied} (reply refl refl (reply refl refl done))
      (reply refl refl (reply refl refl done)) (Perm.swap denying allowing []) evaluate_denies.0
      evaluate_denies.1
