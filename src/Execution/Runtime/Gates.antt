-- ===== src/Execution/Runtime/Gates.antt =====
-- The claim of the key in front of the handler's call, and the key that a contract requires.
use agent_actum.Base.{
  String, ◌≡◌, refl, ◌∙◌, inl, inr, true, false, ◌&&◌, Option, none, some, is_none, List,
  Bool-cases,
}
use agent_actum.Model.Json.{null}
use agent_actum.Model.Exec.{Result, ok, err, ◌>>=◌}
use agent_actum.Model.Host.{Host}
use agent_actum.Contracts.Registry.{RegisteredTool}
use agent_actum.Idempotency.Models.{IdempotencyClaim, is_completed, is_set}
use agent_actum.Execution.Models.{ExecutionResult}
use agent_actum.Execution.Runtime.Defs.{Call, Handler, Runtime, World, Run}
use agent_actum.Execution.Runtime.Stages.{
  replayed, replay, claimed, claim_key, key_missing, require_key,
}
use agent_actum.Execution.Runtime.Invocation.{check_preconditions}
use agent_actum.Execution.Runtime.Calls.{
  OneCall, OneCall-then, OneCall-else, Quiet, Silent, Guarded, Guarded-map, Quiet-failure,
}
use agent_actum.Execution.Runtime.Preparation.{
  quiet, own_call, Prepared, check_preconditions-Guarded,
}

module _ {L I : Type 0} (h : Host) (rt : Runtime L I) (run : Run) where
  Quiet-replayed : (claim : IdempotencyClaim) → Quiet (replayed h rt run claim)
  Quiet-replayed claim = record {
    calls = λ w.
        elim (Bool-cases (is_completed claim.claimed.status && is_set claim.claimed.result)) [
          | inl stored ↦ rw stored refl
          | inr open_claim ↦ rw open_claim ((Quiet-failure h rt run _ _ null none).calls w)
        ];
    records = λ w.
        elim (Bool-cases (is_completed claim.claimed.status && is_set claim.claimed.result)) [
          | inl stored ↦ rw stored refl
          | inr open_claim ↦ rw open_claim ((Quiet-failure h rt run _ _ null none).records w)
        ];
  }

  pub Quiet-replay : (claim : IdempotencyClaim) → Quiet (replay h rt run claim)
  unfolding replay
  Quiet-replay claim = search (quiet, Quiet-replayed)

  -- The action's key, if it has one, was claimed now and by this run.
  abbrev pub Acquired : Option String → I → Type 0
  Acquired none i = Unit
  Acquired (some key) i =
      (c : IdempotencyClaim) × (i' : I) × (rt.idempotency.claim key i ≡ (ok c, i'))
      × (c.acquired ≡ true)

  module _ (tool : RegisteredTool Handler) where
    abbrev pub PreparedFor : Option String → List Call → I → Type 0
    PreparedFor key calls i = Acquired key i × Prepared h rt run tool calls

    claimed-OneCall :
        (key : String) (w : World L I) (x : Result IdempotencyClaim × I)
        → rt.idempotency.claim key w.idempotency ≡ x
        → (c : IdempotencyClaim) → x.0 ≡ ok c
        → OneCall
            (PreparedFor (some key))
            (own_call h rt run)
            w
            (claimed h rt run tool c (record w { idempotency = x.1 })).1
    claimed-OneCall key w x e c r =
        let w' : World L I = record w { idempotency = x.1 } in
        elim (OneCall-then (λ calls _. Prepared h rt run tool calls) (own_call h rt run) w'
          c.acquired (check_preconditions h rt run (some c) tool w') (replay h rt run c w')
          ((check_preconditions-Guarded h rt run (some c) tool).at w')
          ((Quiet-replay c).calls w')) [
            | inl unchanged ↦ inl unchanged
            | inr ((got, p), once) ↦ inr (((c, x.1, e ∙ (λ i. (r i, x.1)), got), p), once)
          ]

    claim_key-Guarded :
        (key : Option String)
        → Guarded (PreparedFor key) (own_call h rt run) (claim_key h rt run tool key)
    unfolding claim_key ◌>>=◌
    claim_key-Guarded none =
        Guarded-map (λ calls _. Prepared h rt run tool calls) (PreparedFor none) (own_call h rt run)
          (λ _ _ p. (tt, p)) (check_preconditions-Guarded h rt run none tool)
    claim_key-Guarded (some key) = record {
      at = λ w. go w (rt.idempotency.claim key w.idempotency) refl;
    }
      where
        go :
            (w : World L I) (x : Result IdempotencyClaim × I)
            → rt.idempotency.claim key w.idempotency ≡ x
            → OneCall
                (PreparedFor (some key))
                (own_call h rt run)
                w
                (elim x.0 as (λ _. Result ExecutionResult × World L I) [
                  | ok c ↦ claimed h rt run tool c (record w { idempotency = x.1 })
                  | err y ↦ (err y, record w { idempotency = x.1 })
                ]).1
        go w (ok c, i') e = claimed-OneCall key w (ok c, i') e c refl
        go w (err y, i') e = inl refl

    -- A contract that wants a key is met by an action that has one.
    abbrev pub KeyGiven : Type 0
    KeyGiven =
        (tool.contract.idempotency_key_required && is_none run.action.idempotency_key) ≡ false

    pub Silent-key_missing : Silent (key_missing h rt run)
    unfolding key_missing
    Silent-key_missing = search quiet

    pub require_key-Guarded :
        Guarded
          (λ calls i. KeyGiven × PreparedFor run.action.idempotency_key calls i)
          (own_call h rt run)
          (require_key h rt run tool)
    unfolding require_key
    require_key-Guarded = record {
      at = λ w.
          OneCall-else (PreparedFor run.action.idempotency_key) (own_call h rt run) w
            (tool.contract.idempotency_key_required && is_none run.action.idempotency_key)
            (key_missing h rt run w) (claim_key h rt run tool run.action.idempotency_key w)
            (Silent-key_missing.calls w) ((claim_key-Guarded run.action.idempotency_key).at w);
    }
