-- ===== src/Execution/Runtime/Progress/Tests.antt =====
-- A run whose checks all pass, over the in-memory components.
use agent_actum.Base.{
  text_eq, ◌≡◌, refl, ◌≤◌, suc, true, none, some, [], ◌∷◌, String, Option, arith,
}
use agent_actum.Samples.{host, action}
use agent_actum.Model.Json.{Value, null, str, end, dumps}
use agent_actum.Model.Exec.{ok, lift, ◌>>=◌}
use agent_actum.Model.Host.{draw}
use agent_actum.Contracts.Models.{action_matches_contract}
use agent_actum.Contracts.Registry.{get}
use agent_actum.Ledger.Models.{AppendArguments, LedgerEvent}
use agent_actum.Ledger.Memory.{InMemoryLedger, in_memory_ledger, append}
use agent_actum.Idempotency.Models.{IdempotencyRecord, in_progress, validate_completion}
use agent_actum.Idempotency.Memory.{
  InMemoryIdempotencyBackend, in_memory_backend, claim, mark_completed,
}
use agent_actum.Policies.Models.{validate_constraints}
use agent_actum.Policies.Engine.{
  evaluate, collect, compose, make_decision, max_risk, first_denial, constraints_of,
}
use agent_actum.Execution.Schema.{
  validate_against_schema, validate_value, properties_error, missing_field,
}
use agent_actum.Execution.Runtime.Defs.{checks_pass}
use agent_actum.Execution.Runtime.Stages.{execute}
use agent_actum.Execution.Runtime.Example.{registered_pay, runtime, world}
use agent_actum.Execution.Runtime.Admission.{run_from}
use agent_actum.Execution.Runtime.Progress.{Success, TakesEvents, ClockForward, Claimable, Ready}
use agent_actum.Execution.Runtime.Progress.Reaching.{execute-Success}

-- The ledger takes an event, whether it names an actor or not.
taken :
    (actor : Option String) (args : AppendArguments) (l : InMemoryLedger)
    → (e : LedgerEvent) × (l' : InMemoryLedger) × (append host (record args { actor_id = actor }) l
        ≡ (ok e, l'))
unfolding append
taken none args l = (_, _, refl)
taken (some s) args l = (_, _, refl)

takes : TakesEvents host runtime
unfolding in_memory_ledger
takes args l = taken args.actor_id args l

forward : ClockForward host runtime
forward m n le = le

-- The backend with the key claimed, and a completion by the owner, with a reference or without.
abbrev claimed_record : IdempotencyRecord
claimed_record = record {
  key = "k1";
  owner_token = 100;
  status = in_progress;
  claimed_at = 1;
  completed_at = none;
  result_reference = none;
  result = null;
}

abbrev with_claim : InMemoryIdempotencyBackend
with_claim = record { records = ("k1", claimed_record) ∷ []; drawn = 2 }

completes :
    (reference : Option String) (v : Value)
    → (m : IdempotencyRecord) × (i : InMemoryIdempotencyBackend) × (mark_completed host "k1" 100
          reference v with_claim
        ≡ (ok m, i))
unfolding mark_completed validate_completion
completes none v = (_, _, refl)
completes (some s) v = (_, _, refl)

claimable : Claimable host runtime (some "k1") world.idempotency
unfolding in_memory_backend claim validate_completion
claimable =
    (record { claimed = claimed_record; acquired = true }, with_claim, refl, refl, completes)

ready :
    Ready host runtime (run_from host action end 0) registered_pay (str "paid") [] world.idempotency
unfolding get action_matches_contract validate_against_schema validate_value properties_error
    missing_field evaluate collect compose make_decision draw max_risk first_denial constraints_of
    validate_constraints checks_pass dumps lift ◌>>=◌
ready = record {
  registered = refl;
  matches = refl;
  input_valid = refl;
  permitted =
      λ n. let later : n ≤ suc (suc n) = omega arith in (_, suc (suc n), refl, later, refl, refl);
  key_given = refl;
  claimable = claimable;
  prepared = refl;
  answers = refl;
  output_valid = refl;
  serialisable = refl;
  accepted = refl;
  verified = refl;
}

execute-Success_example : Success (str "paid") (execute host runtime action end world)
execute-Success_example =
    execute-Success host runtime action end registered_pay (str "paid") world takes forward ready
