-- ===== src/Execution/Runtime/Admission.antt =====
-- The first gates of a run, the ledger and the registry; and the theorem about `execute` as a whole.
use agent_actum.Base.{ℕ, suc, ◌≡◌, refl, Bool, true, false, none, List}
use agent_actum.Model.Json.{null, JsonObject}
use agent_actum.Model.Exec.{Result, ok, err, ◌>>=◌}
use agent_actum.Model.Host.{Host}
use agent_actum.Contracts.Models.{ActionIntent, Bound, action_matches_contract_iff}
use agent_actum.Contracts.Registry.{RegisteredTool, get}
use agent_actum.Execution.Runtime.Defs.{Call, Handler, Runtime, World, Run, draw_from}
use agent_actum.Execution.Runtime.Stages.{unknown, resolved, received, receive, execute}
use agent_actum.Execution.Runtime.Calls.{
  OneCall, Silent, Guarded, Guarded-Silent, Guarded-map, Guarded-bind, Quiet-Silent,
  Quiet-append_event, Quiet-failure,
}
use agent_actum.Execution.Runtime.Gates.{Acquired, KeyGiven}
use agent_actum.Execution.Runtime.Preparation.{quiet, own_call, Prepared}
use agent_actum.Execution.Runtime.Authority.{Decided, InputValid, match_contract-Guarded}

module _ {L I : Type 0} (h : Host) (rt : Runtime L I) (run : Run) where
  pub Silent-unknown : Silent (unknown h rt run)
  unfolding unknown
  Silent-unknown = search quiet depth 8

  -- Everything that holds when the handler of `run` is called, by the invocations and the
  -- idempotency records from before the run.
  pub record Gates (calls : List Call) (i : I) : Type 0 where
    pub tool : RegisteredTool Handler
    pub registered : get run.action.tool_name rt.registry ≡ ok tool
    pub bound : Bound run.action tool.contract
    pub input_valid : InputValid h rt run tool
    pub decided : Decided h rt run tool
    pub key_given : KeyGiven h rt run tool
    pub acquired : Acquired h rt run run.action.idempotency_key i
    pub prepared : Prepared h rt run tool calls

  resolved-Guarded :
      (r : Result (RegisteredTool Handler))
      → get run.action.tool_name rt.registry ≡ r
      → Guarded Gates (own_call h rt run) (resolved h rt run r)
  resolved-Guarded (ok tool) e =
      Guarded-map _ Gates (own_call h rt run)
        (λ calls i p. record {
          tool = tool;
          registered = e;
          bound = (action_matches_contract_iff run.action tool.contract).0 p.0;
          input_valid = p.1.0;
          decided = p.1.1.0;
          key_given = p.1.1.1.0;
          acquired = p.1.1.1.1.0;
          prepared = p.1.1.1.1.1;
        })
        (match_contract-Guarded h rt run tool)
  resolved-Guarded (err x) e = Guarded-Silent _ (own_call h rt run) Silent-unknown

  received-Guarded : (taken : Bool) → Guarded Gates (own_call h rt run) (received h rt run taken)
  received-Guarded true = resolved-Guarded (get run.action.tool_name rt.registry) refl
  received-Guarded false =
      Guarded-Silent _ (own_call h rt run) (Quiet-Silent (Quiet-failure h rt run _ _ null none))

  receive-Guarded : Guarded Gates (own_call h rt run) (receive h rt run)
  unfolding receive
  receive-Guarded =
      Guarded-bind _ _ _ _ (Quiet-append_event h rt _) λ taken _ _ _. received-Guarded taken

-- The values that `execute` sets up from a state with `drawn` draws.
abbrev pub run_from : Host → ActionIntent → JsonObject → ℕ → Run
run_from h action context drawn = record {
  action = action;
  context = context;
  execution_id = h.uuid4 drawn;
  transaction_id = h.uuid4 (suc drawn);
  started_at = h.clock (suc (suc drawn));
}

module _ {L I : Type 0} (h : Host) (rt : Runtime L I) (a : ActionIntent) (ctx : JsonObject) where
  pub execute-receive :
      (w : World L I)
      → execute h rt a ctx w
        ≡ receive h rt (run_from h a ctx w.drawn) (record w { drawn = suc (suc (suc w.drawn)) })
  unfolding execute draw_from ◌>>=◌
  execute-receive w = refl

  -- A run of `execute` invokes no handler, or it invokes exactly one, once, with the action's own
  -- arguments; and then the tool is registered, the action is bound to its contract, the arguments
  -- satisfy the input schema, the policy engine returned a decision that does not deny and that the
  -- approval checker approved if it asks for approval, a required key was given and the backend let
  -- this run acquire it, all preconditions passed, and the ledger took the start of the execution.
  pub execute-Gates :
      (w : World L I)
      → OneCall
          (Gates h rt (run_from h a ctx w.drawn))
          (record { tool_name = a.tool_name; arguments = a.arguments })
          w
          (execute h rt a ctx w).1
  execute-Gates w = rw (execute-receive w) (
      (receive-Guarded h rt (run_from h a ctx w.drawn)).at
        (record w { drawn = suc (suc (suc w.drawn)) }))
