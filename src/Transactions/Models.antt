-- ===== src/Transactions/Models.antt =====
-- transactions/models.py: the table of legal transitions, `Transaction` and `transition`. Timestamps
-- are aware datetimes, so they are compared as numbers; the state counts the draws of
-- `datetime.now(UTC)`.
use agent_actum.Base.{
  ℕ, suc, String, ◌≡◌, ◌↔◌, Bool, true, false, not, ◌&&◌, Eq, nat_eq, ◌==◌, ltb, if◌then◌else◌,
  Option, none, some, is_none, or_else, List, [], ◌∷◌, map, refl, sym, ap, ◌∙◌, is_empty, distinct,
  member, arith,
}
use agent_actum.Model.Enums.{
  TransactionStatus, proposed, validating, awaiting_approval, approved, executing, committed,
  rejected, failed, compensating, compensated, partially_compensated,
}
use agent_actum.Model.Exec.{Result, ok, err, Exec, value_error, illegal_transition}
use agent_actum.Model.Host.{Host, checked, long_text}
use agent_actum.Contracts.Models.{ActionIntent}

-- `LEGAL_TRANSACTION_TRANSITIONS`, its sets as lists.
abbrev pub legal_transitions : TransactionStatus → List TransactionStatus
legal_transitions proposed = validating ∷ rejected ∷ []
legal_transitions validating = awaiting_approval ∷ approved ∷ rejected ∷ failed ∷ []
legal_transitions awaiting_approval = approved ∷ rejected ∷ failed ∷ []
legal_transitions approved = executing ∷ rejected ∷ failed ∷ []
legal_transitions executing = committed ∷ failed ∷ compensating ∷ []
legal_transitions compensating = compensated ∷ partially_compensated ∷ failed ∷ []
legal_transitions committed = []
legal_transitions rejected = []
legal_transitions failed = []
legal_transitions compensated = []
legal_transitions partially_compensated = []

-- `status in terminal`, `status in reason_required`, `status is AWAITING_APPROVAL`.
abbrev pub is_terminal : TransactionStatus → Bool
is_terminal committed = true
is_terminal rejected = true
is_terminal failed = true
is_terminal compensated = true
is_terminal partially_compensated = true
is_terminal _ = false

abbrev pub reason_required : TransactionStatus → Bool
reason_required rejected = true
reason_required failed = true
reason_required partially_compensated = true
reason_required _ = false

abbrev pub is_awaiting_approval : TransactionStatus → Bool
is_awaiting_approval awaiting_approval = true
is_awaiting_approval _ = false

-- Equality of statuses, by their places in the enumeration.
abbrev status_code : TransactionStatus → ℕ
status_code proposed = 0
status_code validating = 1
status_code awaiting_approval = 2
status_code approved = 3
status_code executing = 4
status_code committed = 5
status_code rejected = 6
status_code failed = 7
status_code compensating = 8
status_code compensated = 9
status_code partially_compensated = 10

abbrev status_of : ℕ → TransactionStatus
status_of n =
    if n == 0
    then proposed
    else if n == 1
    then validating
    else if n == 2
    then awaiting_approval
    else if n == 3
    then approved
    else if n == 4
    then executing
    else if n == 5
    then committed
    else if n == 6
    then rejected
    else if n == 7
    then failed
    else if n == 8
    then compensating
    else if n == 9
    then compensated
    else partially_compensated

status_of-status_code : (a : TransactionStatus) → status_of (status_code a) ≡ a
status_of-status_code proposed = refl
status_of-status_code validating = refl
status_of-status_code awaiting_approval = refl
status_of-status_code approved = refl
status_of-status_code executing = refl
status_of-status_code committed = refl
status_of-status_code rejected = refl
status_of-status_code failed = refl
status_of-status_code compensating = refl
status_of-status_code compensated = refl
status_of-status_code partially_compensated = refl

pub status_iff : (a b : TransactionStatus) → ((status_code a == status_code b) ≡ true) ↔ (a ≡ b)
status_iff a b = (
  λ same.
      let codes : status_code a ≡ status_code b = ground arith in
      sym (status_of-status_code a) ∙ (ap status_of codes ∙ status_of-status_code b),
  λ e. rw e (ground arith),
)

instance abbrev pub status_eq : Eq TransactionStatus
status_eq = record { equal = λ a b. status_code a == status_code b; equal_iff = status_iff }

pub record Transaction : Type 0 where
  pub transaction_id : ℕ
  pub status : TransactionStatus
  pub intents : List ActionIntent
  pub created_at : ℕ
  pub updated_at : ℕ
  pub approval_request_ids : List ℕ
  pub status_reason : Option String
  pub completed_at : Option ℕ

-- The tests of `validate_state` on the status, behind those on the identifiers and the times.
abbrev check_completion : Transaction → Option ℕ → Result Transaction
check_completion t none =
    if is_terminal t.status
    then err (value_error "terminal transaction requires completed_at")
    else ok t
check_completion t (some at) =
    if is_terminal t.status
    then (if ltb at t.updated_at
        then err (value_error "completed_at must not precede updated_at")
        else ok t)
    else err (value_error "non-terminal transaction cannot have completed_at")

abbrev check_status : Transaction → Result Transaction
check_status t =
    if is_awaiting_approval t.status && is_empty t.approval_request_ids
    then err (value_error "awaiting approval requires an approval request")
    else if reason_required t.status && is_none t.status_reason
    then err (value_error "terminal failure status requires a reason")
    else check_completion t t.completed_at

abbrev pub intent_ids : List ActionIntent → List ℕ
intent_ids intents = map (λ i. i.intent_id) intents

unfoldable pub validate_state : Transaction → Result Transaction
validate_state t =
    if is_empty t.intents
    then err (value_error "transaction must contain at least one intent")
    else if not (distinct (intent_ids t.intents))
    then err (value_error "transaction intent identifiers must be unique")
    else if not (distinct t.approval_request_ids)
    then err (value_error "approval request identifiers must be unique")
    else if ltb t.updated_at t.created_at
    then err (value_error "updated_at must not precede created_at")
    else check_status t

-- The keyword arguments of `transition`.
pub record TransitionArguments : Type 0 where
  pub updated_at : Option ℕ
  pub approval_request_ids : Option (List ℕ)
  pub status_reason : Option String
  pub completed_at : Option ℕ

-- `updated_at or datetime.now(UTC)`, and the number of draws after it.
abbrev pub next_updated_at : Host → Option ℕ → ℕ → ℕ × ℕ
next_updated_at h none n = (h.utc_now n, suc n)
next_updated_at h (some at) n = (at, n)

abbrev next_completed_at : TransactionStatus → Option ℕ → ℕ → Option ℕ
next_completed_at status none updated_at = if is_terminal status then some updated_at else none
next_completed_at status (some at) updated_at = some at

-- An optional reason under its rule.
abbrev pub checked_reason : Host → Option String → Result (Option String)
checked_reason h none = ok none
checked_reason h (some s) = elim (checked h long_text s) [ ok t ↦ ok (some t) | err e ↦ err e ]

-- The fields of the next snapshot.
abbrev pub snapshot :
    Transaction → TransactionStatus → TransitionArguments → ℕ → Option String → Transaction
snapshot t status args updated_at reason = record {
  transaction_id = t.transaction_id;
  status = status;
  intents = t.intents;
  created_at = t.created_at;
  updated_at = updated_at;
  approval_request_ids = or_else args.approval_request_ids t.approval_request_ids;
  status_reason = reason;
  completed_at = next_completed_at status args.completed_at updated_at;
}

-- The construction of the model: pydantic checks the reason, then `validate_state` runs.
abbrev pub next_snapshot :
    Host → Transaction → TransactionStatus → TransitionArguments → ℕ → Result Transaction
next_snapshot h t status args updated_at = elim (checked_reason h args.status_reason) [
  | err e ↦ err e
  | ok reason ↦ validate_state (snapshot t status args updated_at reason)
]

unfoldable pub transition :
    Host → Transaction → TransactionStatus → TransitionArguments → Exec ℕ Transaction
transition h t status args n =
    if not (member status (legal_transitions t.status))
    then (err (illegal_transition t.status status), n)
    else (let (updated_at, n') = next_updated_at h args.updated_at n in
        (next_snapshot h t status args updated_at, n'))
