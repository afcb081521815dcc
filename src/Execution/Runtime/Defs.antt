-- ===== src/Execution/Runtime/Defs.antt =====
-- The runtime's components and state, and the helpers `_append_event`, `_failure` and
-- `_complete_claim`.
use agent_actum.Base.{
  ℕ, suc, nat_eq, String, Bool, true, false, if◌then◌else◌, Option, none, some, List, [], ◌∷◌,
  member,
}
use agent_actum.Model.Json.{Value, JsonObject, dumps}
use agent_actum.Model.Exec.{Result, ok, err, Exec, value_error, lift, ◌>>=◌}
use agent_actum.Model.Host.{Host}
use agent_actum.Contracts.Models.{ActionIntent, ToolContract}
use agent_actum.Contracts.Registry.{ToolRegistry}
use agent_actum.Ledger.Models.{Ledger, AppendArguments}
use agent_actum.Idempotency.Models.{IdempotencyBackend, IdempotencyClaim}
use agent_actum.Policies.Models.{PolicyDecision}
use agent_actum.Policies.Engine.{Policy}
use agent_actum.Execution.Models.{failure_detail, ExecutionResult, execution_result}

-- An invocation of a tool's handler: the effect on the outside world.
pub record Call : Type 0 where
  pub tool_name : String
  pub arguments : JsonObject

-- What a handler returns or raises may depend on the invocations before it.
abbrev pub Handler : Type 0
Handler = JsonObject → List Call → Result Value

abbrev pub RuntimeCheck : Type 0
RuntimeCheck = ActionIntent → ToolContract → JsonObject → List Call → Result Bool

-- The protocol `ApprovalChecker`.
abbrev pub ApprovalChecker : Type 0
ApprovalChecker = ActionIntent → ToolContract → PolicyDecision → JsonObject → Result Bool

abbrev pub no_approval_checker : ApprovalChecker
no_approval_checker action contract decision context = ok false

unfoldable pub static_approval_checker : List ℕ → ApprovalChecker
static_approval_checker approved_intent_ids action contract decision context =
    ok (member action.intent_id approved_intent_ids)

-- The components that a runtime is made from. `model_dump` and `model_validate_json` are pydantic's,
-- the latter of the JSON text of a value.
pub record Runtime (L I : Type 0) : Type 0 where
  pub registry : ToolRegistry Handler
  pub policies : List Policy
  pub ledger : Ledger L
  pub idempotency : IdempotencyBackend I
  pub approval_checker : ApprovalChecker
  pub preconditions : List RuntimeCheck
  pub postconditions : List RuntimeCheck
  pub model_dump : ExecutionResult → Value
  pub model_validate_json : Value → Result ExecutionResult

-- The state that a run changes: that of the ledger and of the backend, the number of draws from the
-- clock and from `uuid4`, and the invocations of handlers so far.
pub record World (L I : Type 0) : Type 0 where
  pub ledger : L
  pub idempotency : I
  pub drawn : ℕ
  pub calls : List Call

-- The values that `execute` sets up first.
pub record Run : Type 0 where
  pub action : ActionIntent
  pub context : JsonObject
  pub execution_id : ℕ
  pub transaction_id : ℕ
  pub started_at : ℕ

-- The arguments of an event of this run; its correlation identifier is the intent's.
abbrev pub event : Run → String → Option ℕ → Option JsonObject → AppendArguments
event run event_type transaction_id details = record {
  correlation_id = run.action.intent_id;
  event_type = event_type;
  intent_id = some run.action.intent_id;
  transaction_id = transaction_id;
  actor_id = none;
  details = details;
}

abbrev returns : {A : Type 0} → Result A → Bool
returns (ok _) = true
returns (err _) = false

abbrev pub discard : {A : Type 0} → Result A → Result (Unit {0})
discard (ok _) = ok tt
discard (err e) = err e

module _ {L I : Type 0} (h : Host) (rt : Runtime L I) where
  -- A draw from the clock or from `uuid4`.
  unfoldable pub draw_from : (ℕ → ℕ) → Exec (World L I) ℕ
  draw_from answers w = (ok (answers w.drawn), record w { drawn = suc w.drawn })

  -- A method whose state is the number of draws.
  unfoldable pub with_draws : {A : Type 0} → Exec ℕ A → Exec (World L I) A
  with_draws m w = let (r, n) = m w.drawn in (r, record w { drawn = n })

  -- `_append_event`: whether the ledger took the event.
  unfoldable pub append_event : AppendArguments → Exec (World L I) Bool
  append_event args w =
      let (r, l) = rt.ledger.append args w.ledger in (ok (returns r), record w { ledger = l })

  -- `_failure`.
  unfoldable pub failure :
      Run → String → String → Value → Option Bool → Exec (World L I) ExecutionResult
  failure run code message output postcondition_verified = do
    completed_at ← draw_from h.clock
    error ← lift (failure_detail h code message)
    lift (
        execution_result h (record {
          execution_id = run.execution_id;
          transaction_id = run.transaction_id;
          intent_id = run.action.intent_id;
          succeeded = false;
          started_at = run.started_at;
          completed_at = completed_at;
          output = output;
          error = some error;
          postcondition_verified = postcondition_verified;
        }))

  -- `_complete_claim`; what the backend raises is not caught.
  unfoldable pub complete_claim :
      Option IdempotencyClaim → ExecutionResult → Exec (World L I) (Unit {0})
  complete_claim none result w = (ok tt, w)
  complete_claim (some claim) result w =
      let (r, i) =
        rt.idempotency.mark_completed claim.claimed.key claim.claimed.owner_token
          (some (h.uuid_text result.execution_id)) (rt.model_dump result) w.idempotency in
      (discard r, record w { idempotency = i })

-- `_decode_execution_result`: `json.dumps` in front of pydantic's reading.
abbrev pub decode_execution_result : {L I : Type 0} → Runtime L I → Value → Result ExecutionResult
decode_execution_result rt value =
    if dumps value
    then rt.model_validate_json value
    else err (value_error "Out of range float values are not JSON compliant")

-- Whether every check returns a true value; the first that raises or does not ends the loop.
unfoldable pub checks_pass :
    List RuntimeCheck → ActionIntent → ToolContract → JsonObject → List Call → Bool
checks_pass [] action contract context calls = true
checks_pass (check ∷ rest) action contract context calls =
    elim (check action contract context calls) [
      | ok true ↦ checks_pass rest action contract context calls
      | ok false ↦ false
      | err _ ↦ false
    ]
