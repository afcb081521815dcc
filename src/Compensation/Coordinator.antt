-- ===== src/Compensation/Coordinator.antt =====
-- `CompensationCoordinator` of compensation/coordinator.py.
use agent_actum.Base.{
  ℕ, suc, Bool, true, false, not, ◌&&◌, String, if◌then◌else◌, Option, none, some, List, [], ◌∷◌,
  ◌++◌, reverse, any, all, is_empty,
}
use agent_actum.Model.Enums.{EffectType, read_only, irreversible}
use agent_actum.Model.Json.{Value, JsonObject, null, str, end, field}
use agent_actum.Model.Exec.{Result, ok, err, Exec, validation, pure, ◌>>=◌, ◌>>◌}
use agent_actum.Model.Host.{Host}
use agent_actum.Ledger.Models.{Ledger, emit}
use agent_actum.Execution.Models.{FailureDetail, failure_detail, ExecutionResult}
use agent_actum.Compensation.Models.{
  CompensationResult, validate_result, CompensationSummaryStatus, not_required, compensated,
  partially_compensated, failed, summary_value, Compensator, CompensationPlan, CompensationSummary,
  is_compensatable,
}

-- The state that a run changes: that of `_ledger`, the number of draws from the clock and from
-- `uuid4`, and the executions that compensators have been called with.
pub record CoordinatorState (L : Type 0) : Type 0 where
  pub ledger : L
  pub drawn : ℕ
  pub calls : List ExecutionResult

-- What the loop does with a plan: it goes on, lists the execution as uncompensated, or lists the
-- result of an attempt.
pub data Entry : Type 0 where
  skipped : Entry
  uncompensated : ExecutionResult → Entry
  attempted : CompensationResult → Entry

-- The fields that both results of an attempt have.
abbrev result_of :
    CompensationPlan → Bool → ℕ → ℕ → ℕ → Value → Option FailureDetail → CompensationResult
result_of plan succeeded started_at compensation_id completed_at output error = record {
  compensation_id = compensation_id;
  execution_id = plan.execution.execution_id;
  transaction_id = plan.execution.transaction_id;
  intent_id = plan.execution.intent_id;
  succeeded = succeeded;
  started_at = started_at;
  completed_at = completed_at;
  output = output;
  error = error;
}

abbrev pub compensation_result :
    Host → CompensationPlan → ℕ → Result Value → ℕ → ℕ → Result CompensationResult
compensation_result h plan started_at (err _) id at =
    elim (failure_detail h "compensation_failed" "Compensator raised an exception.") [
      | err e ↦ err e
      | ok detail ↦ validate_result (result_of plan false started_at id at null (some detail))
    ]
compensation_result h plan started_at (ok output) id at =
    if h.json output
    then validate_result (result_of plan true started_at id at output none)
    else err (validation "output")

-- `_summarize_status`.
unfoldable pub summarize_status :
    List CompensationResult → List ExecutionResult → CompensationSummaryStatus
summarize_status results left =
    if is_empty results && is_empty left
    then not_required
    else if not (is_empty left)
    then (if not (is_empty results) && any (λ r. r.succeeded) results
        then partially_compensated
        else failed)
    else if all (λ r. r.succeeded) results
    then compensated
    else if any (λ r. r.succeeded) results
    then partially_compensated
    else failed

abbrev pub summary_of : List CompensationResult × List ExecutionResult → CompensationSummary
summary_of sorted = record {
  status = summarize_status sorted.0 sorted.1;
  results = sorted.0;
  uncompensated_executions = sorted.1;
}

abbrev pub list_entry :
    Entry
    → List CompensationResult × List ExecutionResult
    → List CompensationResult × List ExecutionResult
list_entry skipped rest = rest
list_entry (uncompensated e) (results, left) = (results, e ∷ left)
list_entry (attempted r) (results, left) = (r ∷ results, left)

module _ {L : Type 0} (h : Host) (ledger : Option (Ledger L)) where
  -- `_append_event`; what the ledger raises is not caught.
  unfoldable pub append_event :
      String → ExecutionResult → Option JsonObject → Exec (CoordinatorState L) (Unit {0})
  append_event event_type execution details w =
      let (r, l) =
        emit ledger
          (record {
            correlation_id = execution.transaction_id;
            event_type = event_type;
            intent_id = some execution.intent_id;
            transaction_id = some execution.transaction_id;
            actor_id = none;
            details = details;
          })
          w.ledger in
      (r, record w { ledger = l })

  unfoldable pub now : Exec (CoordinatorState L) ℕ
  now w = (ok (h.utc_now w.drawn), record w { drawn = suc w.drawn })

  -- The call of the compensator, what it raises as a value.
  unfoldable pub call : Compensator → ExecutionResult → Exec (CoordinatorState L) (Result Value)
  call compensator execution w =
      (ok (compensator execution w.calls), record w { calls = w.calls ++ execution ∷ [] })

  -- The result, with draws from `uuid4` and from the clock.
  unfoldable pub conclude :
      CompensationPlan → ℕ → Result Value → Exec (CoordinatorState L) CompensationResult
  conclude plan started_at answer w = (
    compensation_result h plan started_at answer (h.uuid4 w.drawn) (h.utc_now (suc w.drawn)),
    record w { drawn = suc (suc w.drawn) },
  )

  abbrev pub attempt_event : CompensationResult → String
  attempt_event result =
      if result.succeeded then "compensation.succeeded" else "compensation.failed"

  -- `_attempt_compensation`.
  unfoldable pub attempt_compensation :
      CompensationPlan → Compensator → Exec (CoordinatorState L) CompensationResult
  attempt_compensation plan compensator = do
    started_at ← now
    append_event "compensation.attempted" plan.execution none
    answer ← call compensator plan.execution
    result ← conclude plan started_at answer
    append_event (attempt_event result) plan.execution
        (some (field "compensation_id" (str (h.uuid_text result.compensation_id)) end))
    pure result

  -- An event, and the entry.
  unfoldable pub note : String → CompensationPlan → Entry → Exec (CoordinatorState L) Entry
  note event_type plan entry = append_event event_type plan.execution none >>= λ _. pure entry

  unfoldable pub attempt : CompensationPlan → Compensator → Exec (CoordinatorState L) Entry
  attempt plan compensator = attempt_compensation plan compensator >>= λ r. pure (attempted r)

  abbrev pub with_compensator :
      CompensationPlan → Option Compensator → Exec (CoordinatorState L) Entry
  with_compensator plan none =
      note "compensation.missing_compensator" plan (uncompensated plan.execution)
  with_compensator plan (some compensator) = attempt plan compensator

  abbrev pub by_effect : CompensationPlan → EffectType → Exec (CoordinatorState L) Entry
  by_effect plan read_only w = note "compensation.skipped_read_only" plan skipped w
  by_effect plan irreversible w =
      note "compensation.irreversible" plan (uncompensated plan.execution) w
  by_effect plan effect w =
      if not (is_compensatable effect)
      then note "compensation.skipped_uncompensatable" plan skipped w
      else with_compensator plan plan.compensator w

  -- The body of the loop.
  unfoldable pub compensate_one : CompensationPlan → Exec (CoordinatorState L) Entry
  compensate_one plan w =
      if not plan.execution.succeeded then (ok skipped, w) else by_effect plan plan.effect_type w

  -- The loop over the plans, which are already reversed.
  unfoldable pub compensate_each :
      List CompensationPlan
      → Exec (CoordinatorState L) (List CompensationResult × List ExecutionResult)
  compensate_each [] = pure ([], [])
  compensate_each (plan ∷ rest) = do
    entry ← compensate_one plan
    others ← compensate_each rest
    pure (list_entry entry others)

  -- An event about the failed execution, if there is one.
  unfoldable pub note_failed :
      String → Option ExecutionResult → JsonObject → Exec (CoordinatorState L) (Unit {0})
  note_failed event_type none details = pure tt
  note_failed event_type (some execution) details = append_event event_type execution (some details)

  abbrev pub failed_id : Option ExecutionResult → JsonObject
  failed_id none = end
  failed_id (some execution) =
      field "failed_execution_id" (str (h.uuid_text execution.execution_id)) end

  unfoldable pub compensate :
      List CompensationPlan → Option ExecutionResult → Exec (CoordinatorState L) CompensationSummary
  compensate plans failed_execution = do
    note_failed "compensation.started" failed_execution (failed_id failed_execution)
    sorted ← compensate_each (reverse plans)
    note_failed "compensation.completed" failed_execution
        (field "status" (str (summary_value (summarize_status sorted.0 sorted.1))) end)
    pure (summary_of sorted)
