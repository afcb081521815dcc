-- ===== src/Execution/Runtime/Tests.antt =====
-- Tests of the runtime over the in-memory components, and its theorems at concrete inputs.
use agent_actum.Base.{◌⊎◌, inl, is_some, ◌≡◌, refl, ap, true, none, some, [], ◌∷◌}
use agent_actum.Samples.{host, action}
use agent_actum.Model.Json.{str, int, field, end, dumps}
use agent_actum.Model.Number.{pos}
use agent_actum.Model.Exec.{ok, ◌>>=◌}
use agent_actum.Model.Host.{draw}
use agent_actum.Contracts.Models.{action_matches_contract}
use agent_actum.Contracts.Registry.{get}
use agent_actum.Ledger.Memory.{InMemoryLedger, in_memory_ledger, append}
use agent_actum.Idempotency.Models.{validate_completion}
use agent_actum.Idempotency.Memory.{in_memory_backend, get_record, claim, mark_completed}
use agent_actum.Policies.Models.{validate_constraints}
use agent_actum.Policies.Engine.{
  evaluate, collect, compose, make_decision, max_risk, first_denial, constraints_of,
}
use agent_actum.Execution.Models.{ExecutionResult, execution_result, validate_result}
use agent_actum.Execution.Schema.{
  validate_against_schema, validate_value, properties_error, missing_field,
}
use agent_actum.Execution.Runtime.Defs.{
  Runtime, World, no_approval_checker, Call, draw_from, with_draws, append_event, complete_claim,
  checks_pass,
}
use agent_actum.Execution.Runtime.Stages.{
  claim_key, require_key, obey, consult, validate_input, match_contract, receive, execute,
}
use agent_actum.Execution.Runtime.Invocation.{
  invoke, succeed, verify_postconditions, verify_output, run_handler, start, check_preconditions,
}
use agent_actum.Execution.Runtime.Example.{registered_pay, runtime, world}
use agent_actum.Execution.Runtime.Calls.{OneCall}
use agent_actum.Execution.Runtime.Admission.{Gates, run_from, execute-Gates}
use agent_actum.Execution.Runtime.Results.{GoodResult}
use agent_actum.Execution.Runtime.Results.{execute-GoodResult}
use agent_actum.Execution.Runtime.AtMostOnce.{MemoryRuntime, Runs, invoked_at_most_once}
use agent_actum.Execution.Runtime.Successes.Whole.{Justified, execute-Justified}
use agent_actum.Execution.Runtime.ReplayedResults.{Answer, replayed_result}
use agent_actum.Execution.Runtime.Audit.{Grown, execute-Grown}
use agent_actum.Idempotency.Memory.Runs.{here}
use agent_actum.Execution.Runtime.Interleavings.{
  Shared, Others, shared_backend, among, overlapping_once,
}

abbrev call : Call
call = record { tool_name = "pay"; arguments = field "amount" (int (pos 5)) end }

abbrev paid : ExecutionResult
paid = record {
  execution_id = 100;
  transaction_id = 101;
  intent_id = 1;
  succeeded = true;
  started_at = 2;
  completed_at = 5;
  output = str "paid";
  error = none;
  postcondition_verified = some true;
}

execute_run :
    ((execute host runtime action end world).1.calls ≡ call ∷ [])
    × ((execute host runtime action end world).0 ≡ ok paid)
    × (is_some (get_record "k1" (execute host runtime action end world).1.idempotency) ≡ true)
unfolding execute draw_from ◌>>=◌ receive append_event get match_contract action_matches_contract
    validate_input validate_against_schema validate_value properties_error missing_field dumps
    consult with_draws evaluate collect compose make_decision draw max_risk first_denial
    constraints_of validate_constraints obey require_key claim_key check_preconditions checks_pass
    start run_handler invoke verify_output verify_postconditions succeed execution_result
    validate_result complete_claim in_memory_ledger in_memory_backend append claim mark_completed
    validate_completion get_record
execute_run = (refl, refl, refl)

execute-Gates_example :
    OneCall
      (Gates host runtime (run_from host action end 0))
      call
      world
      (execute host runtime action end world).1
execute-Gates_example = execute-Gates host runtime action end world

-- The same key again, with other arguments and another context.
invoked_at_most_once_example :
    (execute host runtime
      (record action { intent_id = 2; arguments = end })
      end
      (execute host runtime action end world).1).1.calls
    ≡ (execute host runtime action end world).1.calls
invoked_at_most_once_example =
    invoked_at_most_once host runtime runtime action
      (record action { intent_id = 2; arguments = end }) end end "k1" world refl refl
      (λ e. cc (execute_run.0, e)) Runs.start

execute-GoodResult_example : GoodResult runtime (run_from host action end 0) paid
execute-GoodResult_example =
    execute-GoodResult host runtime action end world (execute host runtime action end world).1 paid
      (λ stored r e. cc) (ap (λ r. (r, (execute host runtime action end world).1)) execute_run.1)

execute-Justified_example :
    Justified host runtime
      (run_from host action end 0)
      []
      (execute host runtime action end world).1.calls
      paid
execute-Justified_example =
    execute-Justified host runtime action end world (execute host runtime action end world).1 paid
      (ap (λ r. (r, (execute host runtime action end world).1)) execute_run.1) refl

-- A runtime whose pydantic reads the dump of the payment back.
abbrev reader : MemoryRuntime InMemoryLedger
reader = record runtime { model_validate_json = λ _. ok paid }

-- The same key again, with other arguments, over a runtime that reads the stored result.
replayed_result_example :
    let t = (execute host runtime action end world).1 in
    ((claim_key host reader (run_from host action end 9) registered_pay (some "k1") t).0 ≡ ok paid)
    × Answer paid (execute host reader (record action { arguments = end }) end t)
unfolding get_record dumps
replayed_result_example =
    replayed_result host runtime reader action (record action { arguments = end }) end end "k1"
      world (execute host runtime action end world).1 paid (run_from host action end 9)
      registered_pay refl refl refl refl refl refl
      (ap (λ r. (r, (execute host runtime action end world).1)) execute_run.1)
      (λ e. let absent = ap is_some e in cc (execute_run.2, absent)) Runs.start

execute-Grown_example : Grown action 5 world.ledger (execute host runtime action end world).1.ledger
execute-Grown_example = execute-Grown host runtime action end world

-- Nobody else calls the backend; and another run has claimed the key before this one's claim.
abbrev alone : Others
alone turn s = s

abbrev after_claim : Others
after_claim turn s = (claim host "k1" s).1

abbrev shared_runtime : Runtime InMemoryLedger Shared
shared_runtime = record {
  registry = ("pay", registered_pay) ∷ [];
  policies = [];
  ledger = in_memory_ledger host;
  idempotency = shared_backend host alone;
  approval_checker = no_approval_checker;
  preconditions = [];
  postconditions = [];
  model_dump = λ _. str "result";
  model_validate_json = λ _. ok paid;
}

abbrev shared_world : World InMemoryLedger Shared
shared_world = record {
  ledger = world.ledger;
  idempotency = record { backend = world.idempotency; turn = 0 };
  drawn = 0;
  calls = [];
}

-- Two runs of one action start from the same backend.
overlapping_once_example :
    ((execute host (among host alone shared_runtime) action end shared_world).1.calls ≡ [])
    ⊎ ((execute host (among host after_claim shared_runtime) action end shared_world).1.calls ≡ [])
overlapping_once_example =
    overlapping_once host alone after_claim shared_runtime shared_runtime action action end end "k1"
      shared_world shared_world refl refl (inl here)
