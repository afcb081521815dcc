-- ===== src/Execution/Runtime/Example.antt =====
-- A runtime over the in-memory components, with one tool, for the tests.
use agent_actum.Base.{[], ◌∷◌}
use agent_actum.Samples.{host, contract}
use agent_actum.Model.Json.{str}
use agent_actum.Model.Exec.{ok, err, type_error}
use agent_actum.Contracts.Registry.{RegisteredTool}
use agent_actum.Ledger.Memory.{InMemoryLedger, in_memory_ledger, empty as no_events}
use agent_actum.Idempotency.Memory.{in_memory_backend, empty as no_records}
use agent_actum.Execution.Runtime.Defs.{Handler, no_approval_checker}
use agent_actum.Execution.Runtime.AtMostOnce.{MemoryRuntime, MemoryWorld}

abbrev pub pay : Handler
pay arguments calls = ok (str "paid")

abbrev pub registered_pay : RegisteredTool Handler
registered_pay = record { contract = contract; handler = pay }

abbrev pub runtime : MemoryRuntime InMemoryLedger
runtime = record {
  registry = ("pay", registered_pay) ∷ [];
  policies = [];
  ledger = in_memory_ledger host;
  idempotency = in_memory_backend host;
  approval_checker = no_approval_checker;
  preconditions = [];
  postconditions = [];
  model_dump = λ _. str "result";
  model_validate_json = λ _. err (type_error "not a dump");
}

abbrev pub world : MemoryWorld InMemoryLedger
world = record { ledger = no_events; idempotency = no_records; drawn = 0; calls = [] }
