-- ===== src/Execution/Runtime/Invocation.antt =====
-- `SingleActionRuntime.execute` behind the claim of the key, from its last part to its first.
use agent_actum.Base.{
  ℕ, String, Bool, true, false, if◌then◌else◌, Option, none, some, [], ◌∷◌, ◌++◌,
}
use agent_actum.Model.Json.{Value, null, str, field, end, JsonObject}
use agent_actum.Model.Exec.{Result, ok, err, Exec, pure, lift, ◌>>=◌, ◌>>◌}
use agent_actum.Model.Host.{Host}
use agent_actum.Contracts.Models.{ToolContract}
use agent_actum.Contracts.Registry.{RegisteredTool}
use agent_actum.Idempotency.Models.{IdempotencyClaim}
use agent_actum.Execution.Models.{FailureDetail, ExecutionResult, execution_result}
use agent_actum.Execution.Schema.{validate_against_schema, json_or_none, json_or_raise}
use agent_actum.Execution.Runtime.Defs.{
  Handler, Runtime, World, Run, event, draw_from, append_event, failure, complete_claim,
  checks_pass,
}

-- `{"k": "v"}`.
abbrev pub single : String → String → Option JsonObject
single k v = some (field k (str v) end)

-- `result.error.code if result.error else "unknown"`.
abbrev error_code : Option FailureDetail → String
error_code none = "unknown"
error_code (some e) = e.code

module _ {L I : Type 0} (h : Host) (rt : Runtime L I) (run : Run) where
  -- The event, with this run's intent; `execute` mostly does not look at the outcome.
  abbrev pub note : String → Option ℕ → Option JsonObject → Exec (World L I) Bool
  note event_type transaction_id details =
      append_event h rt (event run event_type transaction_id details)

  abbrev pub fail : String → String → Exec (World L I) ExecutionResult
  fail code message = failure h rt run code message null none

  -- `handler(**action.arguments)`.
  unfoldable pub invoke : RegisteredTool Handler → Exec (World L I) (Result Value)
  invoke tool w = (
    ok (tool.handler run.action.arguments w.calls),
    record w {
      calls =
          w.calls
          ++ record { tool_name = run.action.tool_name; arguments = run.action.arguments } ∷ [];
    },
  )

  module _ (claim : Option IdempotencyClaim) where
    -- The result of a run that has passed all its checks.
    unfoldable pub succeed : Value → Exec (World L I) ExecutionResult
    succeed raw = do
      completed_at ← draw_from h rt h.clock
      output ← lift (json_or_raise "$" raw)
      result ← lift (
          execution_result h (record {
            execution_id = run.execution_id;
            transaction_id = run.transaction_id;
            intent_id = run.action.intent_id;
            succeeded = true;
            started_at = run.started_at;
            completed_at = completed_at;
            output = output;
            error = none;
            postcondition_verified = some true;
          }))
      note "execution_succeeded" (some run.transaction_id) none
      complete_claim h rt claim result
      pure result

    -- A failure after the handler returned.
    unfoldable pub reject_output :
        String → String → String → Option JsonObject → Value → Exec (World L I) ExecutionResult
    reject_output code message event_type details raw = do
      result ← failure h rt run code message (json_or_none raw) (some false)
      note event_type (some run.transaction_id) details
      complete_claim h rt claim result
      pure result

    -- The loop over the postconditions.
    unfoldable pub verify_postconditions : ToolContract → Value → Exec (World L I) ExecutionResult
    verify_postconditions contract raw w =
        if checks_pass rt.postconditions run.action contract run.context w.calls
        then succeed raw w
        else reject_output "postcondition_failed" "A postcondition failed after execution."
            "postcondition_failed" none raw w

    -- The validation of the handler's output.
    unfoldable pub verify_output : ToolContract → Value → Exec (World L I) ExecutionResult
    verify_output contract raw w =
        elim (validate_against_schema h raw contract.output_schema.document) [
          | none ↦ verify_postconditions contract raw w
          | some message ↦
              reject_output "output_validation_failed" message "output_validation_failed"
                (single "message" message) raw w
        ]

    unfoldable pub handler_failed : Exec (World L I) ExecutionResult
    handler_failed = do
      result ←
          failure h rt run "tool_execution_failed" "Tool handler raised an exception." null
            (some false)
      note "execution_failed" (some run.transaction_id) (single "code" (error_code result.error))
      complete_claim h rt claim result
      pure result

    abbrev pub handled : ToolContract → Result Value → Exec (World L I) ExecutionResult
    handled contract (ok raw) = verify_output contract raw
    handled contract (err _) = handler_failed

    -- The handler's call.
    unfoldable pub run_handler : RegisteredTool Handler → Exec (World L I) ExecutionResult
    run_handler tool = do outcome ← invoke tool; handled tool.contract outcome

    -- A failure before the handler's call, with the claim completed.
    unfoldable pub fail_claimed : String → String → Exec (World L I) ExecutionResult
    fail_claimed code message = do
      result ← fail code message
      complete_claim h rt claim result
      pure result

    abbrev pub started : RegisteredTool Handler → Bool → Exec (World L I) ExecutionResult
    started tool true = run_handler tool
    started tool false = fail_claimed "ledger_error" "Audit ledger failed before execution."

    -- The event `execution_started`, which must be taken.
    unfoldable pub start : RegisteredTool Handler → Exec (World L I) ExecutionResult
    start tool = do
      taken ← note "execution_started" (some run.transaction_id) none
      started tool taken

    unfoldable pub precondition_failed : Exec (World L I) ExecutionResult
    precondition_failed = do
      note "precondition_failed" none none
      fail_claimed "precondition_failed" "A precondition failed before execution."

    -- The loop over the preconditions.
    unfoldable pub check_preconditions : RegisteredTool Handler → Exec (World L I) ExecutionResult
    check_preconditions tool w =
        if checks_pass rt.preconditions run.action tool.contract run.context w.calls
        then start tool w
        else precondition_failed w
