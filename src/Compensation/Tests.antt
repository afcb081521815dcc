-- ===== src/Compensation/Tests.antt =====
-- Tests of the coordinator, and its theorems at concrete inputs.
use agent_actum.Base.{ℕ, ◌≡◌, refl, true, false, Option, none, List, [], ◌∷◌, some, reverse}
use agent_actum.Samples.{host, strict_host}
use agent_actum.Model.Enums.{EffectType, compensatable, irreversible}
use agent_actum.Model.Json.{str, null, other}
use agent_actum.Model.Exec.{ok, err, validation, ◌>>=◌, pure}
use agent_actum.Ledger.Models.{Ledger, emit}
use agent_actum.Ledger.Memory.{InMemoryLedger, empty}
use agent_actum.Execution.Models.{ExecutionResult}
use agent_actum.Compensation.Models.{
  CompensationResult, validate_result, Compensator, CompensationPlan, CompensationSummary,
  partially_compensated,
}
use agent_actum.Compensation.Coordinator.{
  CoordinatorState, append_event, now, call, conclude, attempt_compensation, note, attempt,
  compensate_one, compensate_each, note_failed, compensate, summarize_status,
}
use agent_actum.Compensation.Order.{Reported, compensate-Compensated}
use agent_actum.Compensation.Refusals.{after_refusal, compensate_each_refused}
use agent_actum.Compensation.Summary.{Meaning, summarize_status-Meaning}

abbrev no_ledger : Option (Ledger InMemoryLedger)
no_ledger = none

abbrev start : CoordinatorState InMemoryLedger
start = record { ledger = empty; drawn = 0; calls = [] }

abbrev execution : ℕ → ExecutionResult
execution id = record {
  execution_id = id;
  transaction_id = 9;
  intent_id = 1;
  succeeded = true;
  started_at = 0;
  completed_at = 0;
  output = null;
  error = none;
  postcondition_verified = none;
}

abbrev undo : Compensator
undo execution calls = ok (str "undone")

abbrev plan : ℕ → EffectType → CompensationPlan
plan id effect = record { execution = execution id; effect_type = effect; compensator = some undo }

-- Two effects that can be compensated, with an irreversible one between them.
abbrev plans : List CompensationPlan
plans = plan 1 compensatable ∷ plan 2 irreversible ∷ plan 3 compensatable ∷ []

abbrev undone : ℕ → ℕ → CompensationResult
undone id drawn = record {
  compensation_id = 101;
  execution_id = id;
  transaction_id = 9;
  intent_id = 1;
  succeeded = true;
  started_at = drawn;
  completed_at = drawn;
  output = str "undone";
  error = none;
}

abbrev summary : CompensationSummary
summary = record {
  status = partially_compensated;
  results =
      record (undone 3 0) { completed_at = 2 }
      ∷ record (undone 1 3) { compensation_id = 104; completed_at = 5 }
      ∷ [];
  uncompensated_executions = execution 2 ∷ [];
}

abbrev end_state : CoordinatorState InMemoryLedger
end_state = record { ledger = empty; drawn = 6; calls = execution 3 ∷ execution 1 ∷ [] }

compensate-plans : compensate host no_ledger plans none start ≡ (ok summary, end_state)
unfolding compensate compensate_each compensate_one attempt attempt_compensation note note_failed
    append_event now call conclude emit validate_result summarize_status ◌>>=◌ pure
compensate-plans = refl

compensate-Compensated_example : Reported (reverse plans) start end_state summary
compensate-Compensated_example =
    compensate-Compensated host no_ledger plans none start end_state summary compensate-plans

summarize_status-Meaning_example :
    Meaning
      (summarize_status summary.results summary.uncompensated_executions)
      summary.results
      summary.uncompensated_executions
summarize_status-Meaning_example =
    summarize_status-Meaning summary.results summary.uncompensated_executions

-- A compensator that returns what is no JSON value.
abbrev odd : Compensator
odd execution calls = ok (other false)

abbrev odd_plan : CompensationPlan
odd_plan = record (plan 3 compensatable) { compensator = some odd }

compensate_each_refused_example :
    compensate_each strict_host no_ledger (odd_plan ∷ plan 1 compensatable ∷ []) start
    ≡ (err (validation "output"), after_refusal strict_host odd_plan odd (other false) start)
compensate_each_refused_example =
    compensate_each_refused strict_host odd_plan odd (other false) start (plan 1 compensatable ∷ [])
      refl refl refl refl
