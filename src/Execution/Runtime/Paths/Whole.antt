-- ===== src/Execution/Runtime/Paths/Whole.antt =====
-- The run as a whole: the claim of the key between the two parts, and the replay of a stored result.
use agent_actum.Base.{ℕ, suc, String, ◌&&◌, Option, none, some}
use agent_actum.Model.Json.{Value}
use agent_actum.Model.Exec.{Exec, ◌>>=◌}
use agent_actum.Model.Host.{Host}
use agent_actum.Contracts.Registry.{RegisteredTool}
use agent_actum.Idempotency.Models.{IdempotencyClaim, is_completed, is_set}
use agent_actum.Execution.Models.{ExecutionResult}
use agent_actum.Execution.Runtime.Defs.{Handler, Runtime, World, Run, decode_execution_result}
use agent_actum.Execution.Runtime.Stages.{replay, claim_from_backend, claim_key, receive}
use agent_actum.Execution.Runtime.Invocation.{check_preconditions}
use agent_actum.Execution.Runtime.Paths.{Statement, Everywhere, Rules, failure-ends, test_branches}
use agent_actum.Execution.Runtime.Paths.Front.{receive-by}
use agent_actum.Execution.Runtime.Paths.Behind.{ClaimRules, check_preconditions-by}

module _ {L I : Type 0} (h : Host) (rt : Runtime L I) (run : Run) (G : Statement h rt run) where
  -- What a statement about whole runs needs besides: the completion of any claim, the reading of a
  -- stored result, and the claim of a key.
  pub record WholeRules : Type 1 where
    pub rules : Rules h rt run G
    pub claim_rules : (claim : Option IdempotencyClaim) → ClaimRules h rt run claim G
    pub reads :
        (n : ℕ) (stored : Value)
        → Everywhere h rt run G n (λ w. (decode_execution_result rt stored, w))
    pub claims :
        (n : ℕ) (key : String) (f : IdempotencyClaim → Exec (World L I) ExecutionResult)
        → ((c : IdempotencyClaim) → Everywhere h rt run G n (f c))
        → Everywhere h rt run G n (claim_from_backend h rt run key >>= f)

  module _ (whole : WholeRules) where
    replay-by :
        (n : ℕ) (claim : IdempotencyClaim) → Everywhere h rt run G (suc n) (replay h rt run claim)
    unfolding replay
    replay-by n claim = whole.rules.steps.event n _ _ _ _ λ _ u.
        test_branches (G n u) (is_completed claim.claimed.status && is_set claim.claimed.result)
          (decode_execution_result rt claim.claimed.result, u) _
          (whole.reads n claim.claimed.result u) (failure-ends h rt run _ _ _ _ n whole.rules u)

    claim_key-by :
        (tool : RegisteredTool Handler) (key : Option String)
        → Everywhere h rt run G 2 (claim_key h rt run tool key)
    unfolding claim_key
    claim_key-by tool none = check_preconditions-by h rt run none G (whole.claim_rules none) 0 tool
    claim_key-by tool (some key) = whole.claims 2 key _ λ c w.
        test_branches (G 2 w) c.acquired (check_preconditions h rt run (some c) tool w) _
          (check_preconditions-by h rt run (some c) G (whole.claim_rules (some c)) 0 tool w)
          (replay-by 1 c w)

    -- A run writes at most five events.
    pub whole-by : Everywhere h rt run G 5 (receive h rt run)
    whole-by =
        receive-by h rt run G whole.rules 1 λ tool _. claim_key-by tool run.action.idempotency_key
