-- ===== src/Execution/Runtime/Preparation.antt =====
-- From the claim of the key to the handler's call: what holds when the handler is called.
use agent_actum.Base.{
  String, ◌≡◌, ◌∙◌, inl, inr, Bool, true, false, Option, none, some, List, arith,
}
use agent_actum.Model.Json.{Value}
use agent_actum.Model.Exec.{Result, ok, pure, bind_along, ◌>>=◌, Result-cases}
use agent_actum.Model.Host.{Host}
use agent_actum.Contracts.Models.{ToolContract}
use agent_actum.Contracts.Registry.{RegisteredTool}
use agent_actum.Ledger.Models.{LedgerEvent}
use agent_actum.Idempotency.Models.{IdempotencyClaim}
use agent_actum.Execution.Runtime.Defs.{
  Call, Handler, Runtime, World, Run, event, append_event, complete_claim, checks_pass,
}
use agent_actum.Execution.Runtime.Invocation.{
  note, invoke, handled, run_handler, fail_claimed, started, start, precondition_failed,
  check_preconditions,
}
use agent_actum.Execution.Runtime.Calls.{
  OneCall, OneCall-map, OneCall-then, OneCall-else, Quiet, Silent, Guarded, Quiet-Silent,
  Guarded-Silent, Guarded-map, Quiet-pure, Quiet-lift, Quiet-bind, Silent-bind, Guarded-bind,
  Quiet-draw_from, Quiet-with_draws, Quiet-append_event, Quiet-failure, Silent-complete_claim,
}
use agent_actum.Execution.Runtime.Paths.{Statement}
use agent_actum.Execution.Runtime.Paths.Behind.{
  FinishRules, failing, handled-by, fail_claimed-by, precondition_failed-by,
}

pub ruleset quiet = (
  Quiet-pure, Quiet-lift, Quiet-bind, Silent-bind, Quiet-draw_from, Quiet-with_draws,
  Quiet-append_event, Quiet-failure, Silent-complete_claim, Quiet-Silent,
)

module _ {L I : Type 0} (h : Host) (rt : Runtime L I) (run : Run) where
  -- The invocation that this run may make.
  abbrev pub own_call : Call
  own_call = record { tool_name = run.action.tool_name; arguments = run.action.arguments }

  -- Nothing but the handler's call makes an invocation.
  abbrev Uncalled : Statement h rt run
  Uncalled n w x = x.1.calls ≡ w.calls

  module _ (claim : Option IdempotencyClaim) where
    Uncalled-FinishRules : FinishRules h rt run claim Uncalled
    unfolding pure
    Uncalled-FinishRules = record {
      steps = record {
        after = λ B n m f q k w.
            bind_along (λ s. s.calls ≡ w.calls) m f w (q.calls w) (λ b u r p. k b w u r ∙ p);
        event = λ n t x d f k w.
            bind_along (λ s. s.calls ≡ w.calls) (note h rt run t x d) f w
              ((Quiet-append_event h rt _).calls w) (λ b u r p. k b u ∙ p);
      };
      finish = λ n r b w.
          bind_along (λ s. s.calls ≡ w.calls) (complete_claim h rt claim r) (λ _. pure r) w
            ((Silent-complete_claim h rt claim r).calls w) (λ _ u _ p. p);
    }

    Silent-handled :
        (contract : ToolContract) (r : Result Value) → Silent (handled h rt run claim contract r)
    Silent-handled contract r = record {
      calls = handled-by h rt run claim Uncalled Uncalled-FinishRules 0 contract r;
    }

    Silent-fail_claimed :
        (code message : String) → Silent (fail_claimed h rt run claim code message)
    Silent-fail_claimed code message = record {
      calls =
          fail_claimed-by h rt run claim Uncalled
            (failing h rt run claim Uncalled Uncalled-FinishRules) 0 code message;
    }

    Silent-precondition_failed : Silent (precondition_failed h rt run claim)
    Silent-precondition_failed = record {
      calls =
          precondition_failed-by h rt run claim Uncalled
            (failing h rt run claim Uncalled Uncalled-FinishRules) 0;
    }

    -- The handler's call is the one invocation, and nothing behind it makes another.
    run_handler-Guarded :
        (tool : RegisteredTool Handler)
        → Guarded (λ _ _. Unit) own_call (run_handler h rt run claim tool)
    unfolding run_handler invoke ◌>>=◌
    run_handler-Guarded tool = record {
      at = λ w.
          inr (
            tt,
            (Silent-handled tool.contract (tool.handler run.action.arguments w.calls)).calls _,
          );
    }

  -- The ledger took the event `execution_started`.
  abbrev pub Recorded : Type 0
  Recorded =
      (l l' : L) × (e : LedgerEvent) × (rt.ledger.append
          (event run "execution_started" (some run.transaction_id) none) l
        ≡ (ok e, l'))

  taken-Recorded :
      (w u : World L I)
      → note h rt run "execution_started" (some run.transaction_id) none w ≡ (ok true, u)
      → Recorded
  unfolding append_event
  taken-Recorded w u e =
      elim (Result-cases
        (rt.ledger.append (event run "execution_started" (some run.transaction_id) none)
          w.ledger).0) [
            | inl (ev, r) ↦ (
              w.ledger,
              _,
              ev,
              λ i. (
                r i,
                (rt.ledger.append (event run "execution_started" (some run.transaction_id) none)
                    w.ledger).1,
              ),
            )
            | inr (x, r) ↦ ground arith
          ]

  -- The preconditions pass in the state of the handler's call, and its start is recorded.
  abbrev pub Prepared : RegisteredTool Handler → List Call → Type 0
  Prepared tool calls =
      (checks_pass rt.preconditions run.action tool.contract run.context calls ≡ true) × Recorded

  module _ (claim : Option IdempotencyClaim) (tool : RegisteredTool Handler) where
    start-Guarded : Guarded (λ _ _. Recorded) own_call (start h rt run claim tool)
    unfolding start
    start-Guarded =
        Guarded-bind (λ _ _. Recorded) own_call _ (started h rt run claim tool)
          (Quiet-append_event h rt _) (λ b w u e. go b w u e)
      where
        go :
            (b : Bool) (w u : World L I)
            → note h rt run "execution_started" (some run.transaction_id) none w ≡ (ok b, u)
            → Guarded (λ _ _. Recorded) own_call (started h rt run claim tool b)
        go true w u e =
            Guarded-map (λ _ _. Unit) (λ _ _. Recorded) own_call (λ _ _ _. taken-Recorded w u e)
              (run_handler-Guarded claim tool)
        go false w u e = Guarded-Silent _ own_call (Silent-fail_claimed claim _ _)

    pub check_preconditions-Guarded :
        Guarded (λ calls _. Prepared tool calls) own_call (check_preconditions h rt run claim tool)
    unfolding check_preconditions
    check_preconditions-Guarded = record {
      at = λ w.
          OneCall-then (λ _ _. Recorded) own_call w
            (checks_pass rt.preconditions run.action tool.contract run.context w.calls)
            (start h rt run claim tool w) (precondition_failed h rt run claim w)
            (start-Guarded.at w) ((Silent-precondition_failed claim).calls w);
    }
