-- ===== src/Execution/Runtime/Stages.antt =====
-- `SingleActionRuntime.execute` up to the claim of the key, from its last part to its first.
use Prim.Native.String.{◌++◌ as join}
use agent_actum.Base.{String, Bool, true, false, ◌&&◌, if◌then◌else◌, Option, none, some, is_none}
use agent_actum.Model.Enums.{is_deny, is_require_approval, decision_value, risk_value}
use agent_actum.Model.Json.{str, dict, field, end, JsonObject}
use agent_actum.Model.Exec.{Result, ok, err, Exec, ◌>>=◌, ◌>>◌}
use agent_actum.Model.Host.{Host}
use agent_actum.Contracts.Models.{ActionIntent, ToolContract, action_matches_contract}
use agent_actum.Contracts.Registry.{RegisteredTool, get}
use agent_actum.Idempotency.Models.{
  IdempotencyRecordStatus, in_progress, completed, is_completed, is_set, IdempotencyClaim,
}
use agent_actum.Policies.Models.{PolicyDecision}
use agent_actum.Policies.Engine.{evaluate}
use agent_actum.Execution.Models.{ExecutionResult}
use agent_actum.Execution.Schema.{validate_against_schema}
use agent_actum.Execution.Runtime.Defs.{
  Handler, Runtime, World, Run, draw_from, with_draws, decode_execution_result,
}
use agent_actum.Execution.Runtime.Invocation.{single, note, fail, check_preconditions}

abbrev status_value : IdempotencyRecordStatus → String
status_value in_progress = "in_progress"
status_value completed = "completed"

-- A checker that raises has not approved.
abbrev pub passed : Result Bool → Bool
passed (ok b) = b
passed (err _) = false

module _ {L I : Type 0} (h : Host) (rt : Runtime L I) (run : Run) where
  -- What a run answers whose key was claimed before.
  abbrev pub replayed : IdempotencyClaim → Exec (World L I) ExecutionResult
  replayed claim w =
      if is_completed claim.claimed.status && is_set claim.claimed.result
      then (decode_execution_result rt claim.claimed.result, w)
      else fail h rt run "idempotency_in_progress"
          "An action with this idempotency key is already in progress." w

  unfoldable pub replay : IdempotencyClaim → Exec (World L I) ExecutionResult
  replay claim = do
    note h rt run "idempotency_replayed" none (single "status" (status_value claim.claimed.status))
    replayed claim

  -- `claim` of the backend; what it raises is not caught.
  abbrev pub claim_from_backend : String → Exec (World L I) IdempotencyClaim
  claim_from_backend key w =
      let (r, i) = rt.idempotency.claim key w.idempotency in (r, record w { idempotency = i })

  abbrev pub claimed : RegisteredTool Handler → IdempotencyClaim → Exec (World L I) ExecutionResult
  claimed tool claim w =
      if claim.acquired then check_preconditions h rt run (some claim) tool w else replay claim w

  -- The claim of the action's key, if it has one.
  unfoldable pub claim_key :
      RegisteredTool Handler → Option String → Exec (World L I) ExecutionResult
  claim_key tool none = check_preconditions h rt run none tool
  claim_key tool (some key) = do claim ← claim_from_backend key; claimed tool claim

  unfoldable pub key_missing : Exec (World L I) ExecutionResult
  key_missing = do
    note h rt run "idempotency_key_missing" none none
    fail h rt run "idempotency_key_missing" "The registered contract requires an idempotency key."

  unfoldable pub require_key : RegisteredTool Handler → Exec (World L I) ExecutionResult
  require_key tool w =
      if tool.contract.idempotency_key_required && is_none run.action.idempotency_key
      then key_missing w
      else claim_key tool run.action.idempotency_key w

  unfoldable pub approval_missing : PolicyDecision → Exec (World L I) ExecutionResult
  approval_missing decision = do
    note h rt run "approval_required" none (single "decision_id" (h.uuid_text decision.decision_id))
    fail h rt run "approval_required" "Approval is required before execution."

  -- The checker's answer, asked for only if the decision wants an approval.
  abbrev pub approved : ToolContract → PolicyDecision → Bool
  approved contract decision =
      if is_require_approval decision.decision_type
      then passed (rt.approval_checker run.action contract decision run.context)
      else true

  -- The tests on the decision's type.
  unfoldable pub obey : RegisteredTool Handler → PolicyDecision → Exec (World L I) ExecutionResult
  obey tool decision w =
      if is_deny decision.decision_type
      then fail h rt run "policy_denied" decision.reason w
      else if approved tool.contract decision
      then require_key tool w
      else approval_missing decision w

  -- The evaluation of the policies; what the engine raises is not caught.
  unfoldable pub consult : RegisteredTool Handler → Exec (World L I) ExecutionResult
  consult tool = do
    note h rt run "contract_validated" none
        (single "contract_id" (h.uuid_text tool.contract.contract_id))
    decision ← with_draws h rt (evaluate h rt.policies run.action (some tool.contract) run.context)
    note h rt run "policy_evaluated" none (
        some (
          field "decision_type" (str (decision_value decision.decision_type))
            (field "risk_level" (str (risk_value decision.risk_level)) end)))
    obey tool decision

  unfoldable pub input_invalid : String → Exec (World L I) ExecutionResult
  input_invalid message = do
    note h rt run "input_validation_failed" none (single "message" message)
    fail h rt run "input_validation_failed" message

  -- The validation of the arguments.
  unfoldable pub validate_input : RegisteredTool Handler → Exec (World L I) ExecutionResult
  validate_input tool w =
      elim (validate_against_schema h (dict run.action.arguments)
        tool.contract.input_schema.document) [
          | none ↦ consult tool w
          | some message ↦ input_invalid message w
        ]

  unfoldable pub mismatch : Exec (World L I) ExecutionResult
  mismatch = do
    note h rt run "contract_mismatch" none (single "tool_name" run.action.tool_name)
    fail h rt run "contract_mismatch" "Action intent does not match the registered contract."

  unfoldable pub match_contract : RegisteredTool Handler → Exec (World L I) ExecutionResult
  match_contract tool w =
      if action_matches_contract run.action tool.contract then validate_input tool w else mismatch w

  -- The engine is asked for its denial of an unknown tool, for the event.
  unfoldable pub unknown : Exec (World L I) ExecutionResult
  unknown = do
    decision ← with_draws h rt (evaluate h rt.policies run.action none run.context)
    note h rt run "tool_unknown" none
        (single "decision_type" (decision_value decision.decision_type))
    fail h rt run "unknown_tool" (join "Tool is not registered: " (join run.action.tool_name "."))

  abbrev pub resolved : Result (RegisteredTool Handler) → Exec (World L I) ExecutionResult
  resolved (ok tool) = match_contract tool
  resolved (err _) = unknown

  abbrev pub received : Bool → Exec (World L I) ExecutionResult
  received true = resolved (get run.action.tool_name rt.registry)
  received false = fail h rt run "ledger_error" "Audit ledger failed before tool resolution."

  -- The event `action_received`, which must be taken, and the look-up of the tool.
  unfoldable pub receive : Exec (World L I) ExecutionResult
  receive = do
    taken ← note h rt run "action_received" none (single "tool_name" run.action.tool_name)
    received taken

-- `execute`: the identifiers of the run and the time of its start, and the run.
unfoldable pub execute :
    {L I : Type 0}
    → Host
    → Runtime L I
    → ActionIntent
    → JsonObject
    → Exec (World L I) ExecutionResult
execute h rt action context = do
  execution_id ← draw_from h rt h.uuid4
  transaction_id ← draw_from h rt h.uuid4
  started_at ← draw_from h rt h.clock
  receive h rt (record {
    action = action;
    context = context;
    execution_id = execution_id;
    transaction_id = transaction_id;
    started_at = started_at;
  })
