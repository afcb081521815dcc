-- ===== src/Facade/Example.antt =====
-- A facade over the in-memory components, and a protected payment, for the tests.
use agent_actum.Base.{String, text_eq, ◌==◌, Bool, none, [], ◌≡◌, some, refl, true, ◌∷◌}
use agent_actum.Samples.{host, contract}
use agent_actum.Facade.PythonValues.{BoundArguments, Object}
use agent_actum.Model.Json.{str, int, field, end, dumps}
use agent_actum.Model.Exec.{err, type_error, Result, ok, lift, ◌>>=◌}
use agent_actum.Ledger.Memory.{InMemoryLedger, in_memory_ledger, append}
use agent_actum.Idempotency.Memory.{
  InMemoryIdempotencyBackend, in_memory_backend, claim, mark_completed,
}
use agent_actum.Execution.Runtime.Example.{world, registered_pay, runtime}
use agent_actum.Facade.{as_json_value}
use agent_actum.Facade.{Protection, json_arguments, submit, wrapper}
use agent_actum.Facade.Protect.{AgentActum, FacadeState}
use agent_actum.Model.Number.{pos}
use agent_actum.Model.Host.{draw}
use agent_actum.Contracts.Models.{action_matches_contract}
use agent_actum.Contracts.Registry.{get}
use agent_actum.Idempotency.Models.{validate_completion}
use agent_actum.Policies.Models.{validate_constraints}
use agent_actum.Policies.Engine.{
  evaluate, collect, compose, make_decision, max_risk, first_denial, constraints_of,
}
use agent_actum.Execution.Models.{ExecutionResult, execution_result, validate_result}
use agent_actum.Execution.Schema.{
  validate_against_schema, validate_value, properties_error, missing_field,
}
use agent_actum.Execution.Runtime.Defs.{
  Call, draw_from, with_draws, append_event, complete_claim, checks_pass,
}
use agent_actum.Execution.Runtime.Stages.{
  claim_key, require_key, obey, consult, validate_input, match_contract, receive, execute,
}
use agent_actum.Execution.Runtime.Invocation.{
  invoke, succeed, verify_postconditions, verify_output, run_handler, start, check_preconditions,
}
use agent_actum.Idempotency.Keys.{create_key, validate_key_material, select_arguments}

abbrev is_blank : String → Bool
is_blank s = s == ""

abbrev pub protection : Protection
protection = record {
  contract = contract;
  idempotency_fields = none;
  context_factory = none;
  is_blank = is_blank;
  digest = λ _. "0a";
}

abbrev pub actum : AgentActum InMemoryLedger InMemoryIdempotencyBackend
actum = record {
  policy_engine = [];
  idempotency_backend = in_memory_backend host;
  ledger = in_memory_ledger host;
  approval_checker = none;
  preconditions = [];
  postconditions = [];
  model_dump = λ _. str "result";
  model_validate_json = λ _. err (type_error "not a dump");
}

abbrev pub empty_facade : FacadeState InMemoryLedger InMemoryIdempotencyBackend
empty_facade = record { registry = []; world = world }

-- What `inspect` binds for a call with the amount 5.
abbrev pub bound : Result BoundArguments
bound = ok (("amount", Object.int (pos 5)) ∷ [])

abbrev pub call : Call
call = record { tool_name = "pay"; arguments = field "amount" (int (pos 5)) end }

abbrev pub paid : ExecutionResult
paid = record {
  execution_id = 102;
  transaction_id = 103;
  intent_id = 100;
  succeeded = true;
  started_at = 4;
  completed_at = 7;
  output = str "paid";
  error = none;
  postcondition_verified = some true;
}

pub wrapper_run :
    ((wrapper host runtime protection bound world).1.calls ≡ call ∷ [])
    × ((wrapper host runtime protection bound world).0 ≡ ok paid)
unfolding wrapper submit json_arguments as_json_value create_key validate_key_material
    select_arguments lift execute draw_from ◌>>=◌ receive append_event get match_contract
    action_matches_contract validate_input validate_against_schema validate_value properties_error
    missing_field dumps consult with_draws evaluate collect compose make_decision draw max_risk
    first_denial constraints_of validate_constraints obey require_key claim_key check_preconditions
    checks_pass start run_handler invoke verify_output verify_postconditions succeed
    execution_result validate_result complete_claim in_memory_ledger in_memory_backend append claim
    mark_completed validate_completion
wrapper_run = (refl, refl)

abbrev pub protected_pay : FacadeState InMemoryLedger InMemoryIdempotencyBackend
protected_pay = record empty_facade { registry = ("pay", registered_pay) ∷ [] }
