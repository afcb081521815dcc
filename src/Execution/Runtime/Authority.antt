-- ===== src/Execution/Runtime/Authority.antt =====
-- The gates in front of the claim of the key: the contract, the arguments, the policies and the
-- approval.
use agent_actum.Base.{
  ℕ, String, ◌≡◌, refl, inl, inr, true, false, Option, none, some, List, Option-cases,
}
use agent_actum.Model.Enums.{is_deny}
use agent_actum.Model.Json.{dict, null}
use agent_actum.Model.Exec.{ok}
use agent_actum.Model.Host.{Host}
use agent_actum.Contracts.Models.{action_matches_contract}
use agent_actum.Contracts.Registry.{RegisteredTool}
use agent_actum.Policies.Models.{PolicyDecision}
use agent_actum.Policies.Engine.{evaluate}
use agent_actum.Execution.Schema.{validate_against_schema}
use agent_actum.Execution.Runtime.Defs.{Call, Handler, Runtime, World, Run, with_draws}
use agent_actum.Execution.Runtime.Stages.{
  require_key, approval_missing, approved, obey, consult, input_invalid, validate_input, mismatch,
  match_contract,
}
use agent_actum.Execution.Runtime.Invocation.{fail}
use agent_actum.Execution.Runtime.Calls.{
  OneCall-map, OneCall-then, OneCall-else, Silent, Guarded, Guarded-map, Guarded-bind,
  Quiet-append_event, Quiet-failure, Quiet-with_draws,
}
use agent_actum.Execution.Runtime.Gates.{PreparedFor, KeyGiven, require_key-Guarded}
use agent_actum.Execution.Runtime.Preparation.{quiet, own_call}

module _ {L I : Type 0} (h : Host) (rt : Runtime L I) (run : Run) where
  module _ (tool : RegisteredTool Handler) where
    pub Silent-approval_missing : (d : PolicyDecision) → Silent (approval_missing h rt run d)
    unfolding approval_missing
    Silent-approval_missing d = search quiet

    pub Silent-input_invalid : (message : String) → Silent (input_invalid h rt run message)
    unfolding input_invalid
    Silent-input_invalid message = search quiet

    -- What holds at the claim and behind it.
    abbrev pub Keyed : List Call → I → Type 0
    Keyed calls i =
        KeyGiven h rt run tool × PreparedFor h rt run tool run.action.idempotency_key calls i

    -- The decision does not deny, and it is approved if it asks for that.
    abbrev pub Authorised : PolicyDecision → Type 0
    Authorised d = (is_deny d.decision_type ≡ false) × (approved h rt run tool.contract d ≡ true)

    obey-Guarded :
        (d : PolicyDecision)
        → Guarded
            (λ calls i.
              (is_deny d.decision_type ≡ false)
              × ((approved h rt run tool.contract d ≡ true) × Keyed calls i))
            (own_call h rt run)
            (obey h rt run tool d)
    unfolding obey
    obey-Guarded d = record {
      at = λ w.
          OneCall-else (λ calls i. (approved h rt run tool.contract d ≡ true) × Keyed calls i)
            (own_call h rt run) w (is_deny d.decision_type)
            (fail h rt run "policy_denied" d.reason w) _
            ((Quiet-failure h rt run _ _ null none).calls w)
            (OneCall-then Keyed (own_call h rt run) w (approved h rt run tool.contract d)
              (require_key h rt run tool w) (approval_missing h rt run d w)
              ((require_key-Guarded h rt run tool).at w) ((Silent-approval_missing d).calls w));
    }

    -- The engine's own answer for this action, and its authority.
    abbrev pub Decided : Type 0
    Decided =
        (d : PolicyDecision) × (t u : ℕ) × (evaluate h rt.policies run.action (some tool.contract)
            run.context t
          ≡ (ok d, u))
        × (is_deny d.decision_type ≡ false)
        × (approved h rt run tool.contract d ≡ true)

    decided :
        (d : PolicyDecision) (w u : World L I)
        → with_draws h rt (evaluate h rt.policies run.action (some tool.contract) run.context) w
          ≡ (ok d, u)
        → evaluate h rt.policies run.action (some tool.contract) run.context w.drawn
          ≡ (ok d, u.drawn)
    unfolding with_draws
    decided d w u e = λ i. ((e i).0, (e i).1.drawn)

    consult-Guarded :
        Guarded (λ calls i. Decided × Keyed calls i) (own_call h rt run) (consult h rt run tool)
    unfolding consult
    consult-Guarded = Guarded-bind _ _ _ _ (Quiet-append_event h rt _) λ _ _ _ _.
        Guarded-bind _ _ _ _ (Quiet-with_draws h rt _) λ d w u e.
          Guarded-bind _ _ _ _ (Quiet-append_event h rt _) λ _ _ _ _.
            Guarded-map _ _ (own_call h rt run)
              (λ calls i p. ((d, w.drawn, u.drawn, decided d w u e, p.0, p.1.0), p.1.1))
              (obey-Guarded d)

    -- The arguments satisfy the contract's input schema.
    abbrev pub InputValid : Type 0
    InputValid =
        validate_against_schema h (dict run.action.arguments) tool.contract.input_schema.document
        ≡ none

    validate_input-Guarded :
        Guarded
          (λ calls i. InputValid × (Decided × Keyed calls i))
          (own_call h rt run)
          (validate_input h rt run tool)
    unfolding validate_input
    validate_input-Guarded = record {
      at = λ w.
          elim (Option-cases (
            validate_against_schema h (dict run.action.arguments)
              tool.contract.input_schema.document)) [
                | inl good ↦
                    rw (good, validate_input)
                      (OneCall-map (λ calls i. Decided × Keyed calls i)
                        (λ calls i. (◌≡◌ {A = Option String} none none) × (Decided × Keyed calls i))
                        (own_call h rt run) w (consult h rt run tool w).1 (λ p. (refl, p))
                        (consult-Guarded.at w))
                | inr (m, bad) ↦ rw (bad, validate_input) (inl ((Silent-input_invalid m).calls w))
              ];
    }

    pub Silent-mismatch : Silent (mismatch h rt run)
    unfolding mismatch
    Silent-mismatch = search quiet

    pub match_contract-Guarded :
        Guarded
          (λ calls i.
            (action_matches_contract run.action tool.contract ≡ true)
            × (InputValid × (Decided × Keyed calls i)))
          (own_call h rt run)
          (match_contract h rt run tool)
    unfolding match_contract
    match_contract-Guarded = record {
      at = λ w.
          OneCall-then (λ calls i. InputValid × (Decided × Keyed calls i)) (own_call h rt run) w
            (action_matches_contract run.action tool.contract) (validate_input h rt run tool w)
            (mismatch h rt run w) (validate_input-Guarded.at w) (Silent-mismatch.calls w);
    }
