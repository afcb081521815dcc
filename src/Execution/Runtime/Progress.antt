-- ===== src/Execution/Runtime/Progress.antt =====
-- Runs whose checks all pass: what is needed of the components and of the action.
pub mod Handling
pub mod Reaching
mod Tests
use agent_actum.Base.{
  ℕ, suc, String, ◌≡◌, ◌≤◌, refl, sym, ap, ◌∙◌, subst, Bool, true, false, Option, none, some, List,
  [], ◌∷◌, ◌++◌, ◌&&◌, is_none, ltb, arith,
}
use agent_actum.Model.Enums.{is_deny}
use agent_actum.Model.Json.{Value, JsonObject, dict, dumps}
use agent_actum.Model.Exec.{Result, ok, Exec, pure, lift, ◌>>=◌, ◌>>◌, bind_ok}
use agent_actum.Model.Host.{Host}
use agent_actum.Contracts.Models.{ActionIntent, ToolContract, action_matches_contract}
use agent_actum.Contracts.Registry.{RegisteredTool, get}
use agent_actum.Ledger.Models.{LedgerEvent, AppendArguments}
use agent_actum.Idempotency.Models.{IdempotencyRecord, IdempotencyClaim}
use agent_actum.Policies.Models.{PolicyDecision}
use agent_actum.Policies.Engine.{evaluate}
use agent_actum.Execution.Models.{ExecutionResult, execution_result, validate_result}
use agent_actum.Execution.Schema.{validate_against_schema, json_or_raise}
use agent_actum.Execution.Runtime.Defs.{
  Call, Handler, Runtime, World, Run, event, draw_from, with_draws, append_event, complete_claim,
  checks_pass, discard,
}
use agent_actum.Execution.Runtime.Invocation.{
  note, invoke, succeed, verify_postconditions, verify_output, handled, run_handler, started, start,
  check_preconditions,
}
use agent_actum.Execution.Runtime.Stages.{
  claimed, claim_from_backend, claim_key, require_key, approved, obey, consult, validate_input,
  match_contract, resolved, received, receive, execute,
}
use agent_actum.Execution.Runtime.Paths.{own_fields}
use agent_actum.Execution.Runtime.Preparation.{own_call}
use agent_actum.Execution.Runtime.Admission.{run_from, execute-receive}

-- A run that has returned a successful result with this output.
abbrev pub Success : {S : Type 0} → Value → Result ExecutionResult × S → Type 0
Success {S} raw x =
    (r : ExecutionResult) × (t : S) × (x ≡ (ok r, t)) × (r.succeeded ≡ true) × (r.output ≡ raw)

pub Success-bind :
    {S B : Type 0} (raw : Value) (m : Exec S B) (f : B → Exec S ExecutionResult) (w u : S) (b : B)
    → m w ≡ (ok b, u)
    → Success raw (f b u)
    → Success raw ((m >>= f) w)
Success-bind raw m f w u b first k = subst (Success raw) (sym (bind_ok m f w u b first)) k

module _ {L I : Type 0} (h : Host) (rt : Runtime L I) where
  -- The ledger takes every event.
  abbrev pub TakesEvents : Type 0
  TakesEvents =
      (args : AppendArguments) (l : L)
      → (e : LedgerEvent) × (l' : L) × (rt.ledger.append args l ≡ (ok e, l'))

  -- The clock never goes back.
  abbrev pub ClockForward : Type 0
  ClockForward = (m n : ℕ) → m ≤ n → h.clock m ≤ h.clock n

  -- The backend lets this run acquire the key of the action, if it has one, and takes its result.
  abbrev pub Claimable : Option String → I → Type 0
  Claimable none i = Unit
  Claimable (some key) i =
      (c : IdempotencyClaim) × (i' : I) × (rt.idempotency.claim key i ≡ (ok c, i'))
      × (c.acquired ≡ true)
      × ((reference : Option String) (v : Value)
          → (m : IdempotencyRecord) × (i'' : I) × (rt.idempotency.mark_completed c.claimed.key
                c.claimed.owner_token reference v i'
              ≡ (ok m, i'')))

  module _ (run : Run) (tool : RegisteredTool Handler) (raw : Value) where
    -- Every check of the run passes, and its handler answers.
    pub record Ready (calls : List Call) (i : I) : Type 0 where
      pub registered : get run.action.tool_name rt.registry ≡ ok tool
      pub matches : action_matches_contract run.action tool.contract ≡ true
      pub input_valid :
          validate_against_schema h (dict run.action.arguments) tool.contract.input_schema.document
          ≡ none
      pub permitted :
          (n : ℕ)
          → (d : PolicyDecision) × (n' : ℕ) × (evaluate h rt.policies run.action
                (some tool.contract)
                run.context
                n
              ≡ (ok d, n'))
            × (n ≤ n')
            × (is_deny d.decision_type ≡ false)
            × (approved h rt run tool.contract d ≡ true)
      pub key_given :
          (tool.contract.idempotency_key_required && is_none run.action.idempotency_key) ≡ false
      pub claimable : Claimable run.action.idempotency_key i
      pub prepared : checks_pass rt.preconditions run.action tool.contract run.context calls ≡ true
      pub answers : tool.handler run.action.arguments calls ≡ ok raw
      pub output_valid : validate_against_schema h raw tool.contract.output_schema.document ≡ none
      pub serialisable : dumps raw ≡ true
      pub accepted : h.json raw ≡ true
      pub verified :
          checks_pass rt.postconditions run.action tool.contract run.context
            (calls ++ own_call h rt run ∷ [])
          ≡ true

  module _ (raw : Value) where
    -- Success from every world with these invocations and records, in which the clock was read at
    -- least so often.
    abbrev pub From : List Call → I → ℕ → Exec (World L I) ExecutionResult → Type 0
    From c i k m =
        (l : L) (n : ℕ)
        → k ≤ n
        → Success raw (m (record { ledger = l; idempotency = i; drawn = n; calls = c }))

    -- An event that the ledger takes, and what follows it.
    pub From-note :
        (run : Run) (event_type : String) (transaction_id : Option ℕ) (details : Option JsonObject)
        (f : Bool → Exec (World L I) ExecutionResult) (c : List Call) (i : I) (k : ℕ)
        → TakesEvents
        → From c i k (f true)
        → From c i k (note h rt run event_type transaction_id details >>= f)
    unfolding append_event
    From-note run event_type transaction_id details f c i k takes next l n le =
        let (e, l', took) = takes (event run event_type transaction_id details) l in
        let w : World L I = record { ledger = l; idempotency = i; drawn = n; calls = c } in
        Success-bind raw (note h rt run event_type transaction_id details) f w
          (record w { ledger = l' }) true (rw took refl) (next l' n le)
