-- ===== src/Execution/Runtime/Records.antt =====
-- The idempotency records under a run: invariants of the backend's methods.
use agent_actum.Base.{ℕ, suc, String, Option, none, some, subst, sym}
use agent_actum.Model.Json.{Value, JsonObject}
use agent_actum.Model.Exec.{Exec, bind_along, lift, pure}
use agent_actum.Model.Host.{Host}
use agent_actum.Contracts.Models.{ActionIntent}
use agent_actum.Contracts.Registry.{RegisteredTool}
use agent_actum.Idempotency.Models.{IdempotencyClaim}
use agent_actum.Execution.Models.{ExecutionResult}
use agent_actum.Execution.Runtime.Defs.{Handler, Runtime, World, Run, complete_claim}
use agent_actum.Execution.Runtime.Stages.{claim_from_backend, execute}
use agent_actum.Execution.Runtime.Invocation.{note, invoke, check_preconditions}
use agent_actum.Execution.Runtime.Calls.{Quiet-append_event}
use agent_actum.Execution.Runtime.Paths.{Statement, Rules, Steps}
use agent_actum.Execution.Runtime.Paths.Whole.{WholeRules, whole-by}
use agent_actum.Execution.Runtime.Admission.{run_from, execute-receive}
use agent_actum.Execution.Runtime.Paths.Behind.{ClaimRules, check_preconditions-by}

-- `m` keeps an invariant of the idempotency records.
pub record Keeps {L I A : Type 0} (Inv : I → Type 0) (m : Exec (World L I) A) : Type 0 where
  pub at : (w : World L I) → Inv w.idempotency → Inv (m w).1.idempotency

module _ {L I : Type 0} (h : Host) (rt : Runtime L I) (Inv : I → Type 0)
    (keeps_claim : (key : String) (i : I) → Inv i → Inv (rt.idempotency.claim key i).1)
    (keeps_completion : (key : String) (token : ℕ) (reference : Option String) (result : Value)
        (i : I)
      → Inv i
      → Inv (rt.idempotency.mark_completed key token reference result i).1) where
  abbrev Holds : World L I → Type 0
  Holds w = Inv w.idempotency

  module _ (run : Run) where
    -- The invariant holds at the end if it held before; the number of events does not matter.
    abbrev Kept : Statement h rt run
    Kept n w x = Holds w → Holds x.1

    Kept-Steps : Steps h rt run Kept
    Kept-Steps = record {
      after = λ B n m f q k w v.
          bind_along Holds m f w (subst Inv (sym (q.records w)) v) (λ b u r. k b w u r);
      event = λ n t x d f k w v.
          bind_along Holds (note h rt run t x d) f w
            (subst Inv (sym ((Quiet-append_event h rt _).records w)) v) (λ b u r. k b u);
    }

    Kept-Rules : Rules h rt run Kept
    unfolding lift
    Kept-Rules = record { steps = Kept-Steps; ends = λ n r b w v. v }

    complete_claim-Kept :
        (claim : Option IdempotencyClaim) (result : ExecutionResult) (w : World L I)
        → Holds w
        → Holds (complete_claim h rt claim result w).1
    unfolding complete_claim
    complete_claim-Kept none result w v = v
    complete_claim-Kept (some c) result w v = keeps_completion _ _ _ _ _ v

    Kept-ClaimRules : (claim : Option IdempotencyClaim) → ClaimRules h rt run claim Kept
    unfolding invoke pure
    Kept-ClaimRules claim = record {
      finishing = record {
        steps = Kept-Steps;
        finish = λ n r b w v.
            bind_along Holds (complete_claim h rt claim r) (λ _. pure r) w
              (complete_claim-Kept claim r w v) (λ _ u _ p. p);
      };
      invoked = λ n tool f k w v. bind_along Holds (invoke h rt run tool) f w v (λ r u _. k r u);
    }

    Kept-WholeRules : WholeRules h rt run Kept
    Kept-WholeRules = record {
      rules = Kept-Rules;
      claim_rules = Kept-ClaimRules;
      reads = λ n stored w v. v;
      claims = λ n key f k w v.
          bind_along Holds (claim_from_backend h rt run key) f w (keeps_claim key w.idempotency v)
            (λ c u _. k c u);
    }

  pub Keeps-check_preconditions :
      (run : Run) (claim : Option IdempotencyClaim) (tool : RegisteredTool Handler)
      → Keeps Inv (check_preconditions h rt run claim tool)
  Keeps-check_preconditions run claim tool = record {
    at = check_preconditions-by h rt run claim (Kept run) (Kept-ClaimRules run claim) 0 tool;
  }

  -- A run of `execute` keeps every invariant of the backend's methods, however it ends.
  pub execute-Keeps : (a : ActionIntent) (ctx : JsonObject) → Keeps Inv (execute h rt a ctx)
  execute-Keeps a ctx = record {
    at = λ w v. rw (execute-receive h rt a ctx w) (
        let run = run_from h a ctx w.drawn in
        whole-by h rt run (Kept run) (Kept-WholeRules run)
          (record w { drawn = suc (suc (suc w.drawn)) }) v);
  }
