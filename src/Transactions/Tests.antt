-- ===== src/Transactions/Tests.antt =====
-- Tests of the transactions, and their theorems at concrete inputs.
use agent_actum.Base.{ℕ, ◌+◌, ◌≤◌, ◌≡◌, ◌↔◌, refl, true, none, some, [], ◌∷◌, arith}
use agent_actum.Samples.{host, action}
use agent_actum.Model.Enums.{
  TransactionStatus, proposed, validating, approved, executing, committed,
}
use agent_actum.Model.Exec.{ok, err, illegal_transition}
use agent_actum.Transactions.Models.{
  Transaction, TransitionArguments, transition, validate_state, is_terminal,
}
use agent_actum.Transactions.Laws.{IsValid, validate_state-IsValid, Outcome, transition-Outcome}
use agent_actum.Transactions.Runs.{
  Run, here, next, moves_left, Run-bounded, Run-keeps, Run-approved, give_up, ending,
  transition_ends,
}

-- A transaction of one intent, in any status that needs no reason and no end.
abbrev at_status : TransactionStatus → Transaction
at_status status = record {
  transaction_id = 9;
  status = status;
  intents = action ∷ [];
  created_at = 0;
  updated_at = 2;
  approval_request_ids = [];
  status_reason = none;
  completed_at = none;
}

abbrev at_two : TransitionArguments
at_two = record {
  updated_at = some 2;
  approval_request_ids = none;
  status_reason = none;
  completed_at = none;
}

-- The way from a proposal to the execution.
abbrev to_executing : Run host (at_status proposed) (at_status executing) 3
unfolding transition validate_state
to_executing =
    next executing at_two 0 0 (next approved at_two 0 0 (next validating at_two 0 0 here refl) refl)
      refl

-- The current time is read only if none is given, and is the time of the end too.
committed_now :
    transition host (at_status executing) committed (record at_two { updated_at = none }) 5
    ≡ (ok (record (at_status committed) { updated_at = 5; completed_at = some 5 }), 6)
unfolding transition validate_state
committed_now = refl

proposed_not_committed :
    transition host (at_status proposed) committed at_two 0
    ≡ (err (illegal_transition proposed committed), 0)
unfolding transition
proposed_not_committed = refl

validate_state-IsValid_example :
    (validate_state (at_status approved) ≡ ok (at_status approved)) ↔ IsValid (at_status approved)
validate_state-IsValid_example = validate_state-IsValid (at_status approved)

transition-Outcome_example :
    Outcome
      (at_status approved)
      executing
      4
      (transition host (at_status approved) executing at_two 4)
transition-Outcome_example = transition-Outcome host (at_status approved) executing at_two 4

Run-bounded_example : 3 + moves_left executing ≤ moves_left proposed
Run-bounded_example = Run-bounded host to_executing

proposed-IsValid : IsValid (at_status proposed)
unfolding validate_state
proposed-IsValid = (validate_state-IsValid (at_status proposed)).0 refl

run_kept :
    let s = at_status proposed in
    let t = at_status executing in
    IsValid t
    × (t.transaction_id ≡ s.transaction_id)
    × (t.intents ≡ s.intents)
    × (t.created_at ≡ s.created_at)
run_kept = Run-keeps host to_executing proposed-IsValid

Run-approved_example :
    (u : Transaction) × (i : ℕ) × (j : ℕ) × Run host (at_status proposed) u i
    × (u.status ≡ approved)
    × Run host u (at_status executing) j
Run-approved_example = Run-approved host to_executing refl refl

transition_ends_example :
    (u : Transaction) × (transition host
        (at_status proposed)
        (give_up proposed)
        (ending "no longer wanted" 8)
        0
      ≡ (ok u, 0))
    × (is_terminal u.status ≡ true)
transition_ends_example =
    transition_ends host (at_status proposed) "no longer wanted" "no longer wanted" 8 0
      proposed-IsValid refl refl (omega arith)
