-- ===== src/LangGraph/Tests.antt =====
-- Tests of the adapter.
use agent_actum.Base.{ℕ, text_eq, ◌≡◌, refl, ap, false, none, [], ◌∷◌}
use agent_actum.Samples.{host, contract}
use agent_actum.Model.Json.{Value, str, int, field, end}
use agent_actum.Model.Exec.{ok, err, integration, value_error}
use agent_actum.Contracts.Registry.{register}
use agent_actum.Ledger.Memory.{InMemoryLedger}
use agent_actum.Idempotency.Memory.{InMemoryIdempotencyBackend}
use agent_actum.Execution.Models.{ExecutionResult}
use agent_actum.Execution.Runtime.Example.{pay}
use agent_actum.Facade.Example.{protection, actum, empty_facade, bound, protected_pay, wrapper_run}
use agent_actum.Facade.Protect.{call_protected, protect}
use agent_actum.LangGraph.Served.{Served, protect_tool-Served}
use agent_actum.Facade.Sessions.{opened}
use agent_actum.Facade.{json_arguments, as_json_value}
use agent_actum.Model.Number.{pos}
use agent_actum.LangGraph.{
  LangGraphReturnMode, Tool, tool_wrapper, serialized, return_mode, result, output,
  serialize_result, imported, protect_tool, tool_node,
}

-- An unknown mode registers nothing.
mode_refused :
    protect_tool host actum protection "raw" pay empty_facade
    ≡ (err (value_error "return_mode must be 'result' or 'output'"), empty_facade)
unfolding protect_tool
mode_refused = refl

tool_registered :
    (protect_tool host actum protection "output" pay empty_facade).1.registry
    ≡ ("pay", record { contract = contract; handler = pay }) ∷ []
unfolding protect_tool protect register
tool_registered = refl

-- A failure is serialised whole in both modes.
failure_serialised :
    (dump : ExecutionResult → Value) (r : ExecutionResult)
    → r.succeeded ≡ false
    → serialize_result dump r output ≡ serialize_result dump r result
unfolding serialize_result
failure_serialised dump r failed = rw failed

node_missing :
    tool_node {L = InMemoryLedger} {I = InMemoryIdempotencyBackend} {Node = ℕ} (imported none) []
    ≡ err (integration "Installed langgraph package does not expose langgraph.prebuilt.ToolNode")
unfolding tool_node
node_missing = refl

abbrev pay_tool : Tool InMemoryLedger InMemoryIdempotencyBackend
pay_tool = tool_wrapper actum output (call_protected host actum protection)

tool_protected :
    protect_tool host actum protection "output" pay empty_facade ≡ (ok pay_tool, protected_pay)
unfolding protect_tool protect register
tool_protected = refl

-- The tool returns the output of the payment.
tool_pays : (pay_tool bound protected_pay).0 ≡ ok (str "paid")
unfolding tool_wrapper call_protected serialize_result
tool_pays = ap (serialized actum.model_dump output) wrapper_run.1

protect_tool-Served_example :
    let u' = (pay_tool bound protected_pay).1 in
    (m : LangGraphReturnMode) × (return_mode "output" ≡ ok m)
    × Served host actum protection pay m protected_pay
        (field "amount" (int (pos 5)) end)
        (str "paid")
        u'
unfolding json_arguments as_json_value
protect_tool-Served_example =
    protect_tool-Served host actum protection pay "output" empty_facade protected_pay protected_pay
      (pay_tool bound protected_pay).1 pay_tool bound (field "amount" (int (pos 5)) end)
      (str "paid") refl tool_protected opened refl
      (ap (λ r. (r, (pay_tool bound protected_pay).1)) tool_pays)
