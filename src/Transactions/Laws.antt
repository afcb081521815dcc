-- ===== src/Transactions/Laws.antt =====
-- What one transition does: the validator by an independent description, and every branch.
use agent_actum.Base.{
  ℕ, String, ◌≡◌, ◌≤◌, ◌↔◌, ◌⊎◌, Bool, true, false, Option, some, is_some, is_empty, distinct,
  member, nat_eq, arith, refl, sym, subst, inl, inr, Bool-cases, Option-cases,
}
use agent_actum.Model.Enums.{TransactionStatus}
use agent_actum.Model.Exec.{Result, ok, err, Error, Result-cases, illegal_transition}
use agent_actum.Model.Host.{Host}
use agent_actum.Transactions.Models.{
  Transaction, TransitionArguments, transition, next_snapshot, snapshot, checked_reason,
  validate_state, legal_transitions, is_terminal, reason_required, is_awaiting_approval, intent_ids,
  status_eq,
}

-- A coherent snapshot.
pub record IsValid (t : Transaction) : Type 0 where
  pub has_intents : is_empty t.intents ≡ false
  pub unique_intents : distinct (intent_ids t.intents) ≡ true
  pub unique_requests : distinct t.approval_request_ids ≡ true
  pub ordered : t.created_at ≤ t.updated_at
  pub requested : is_awaiting_approval t.status ≡ true → is_empty t.approval_request_ids ≡ false
  pub explained : reason_required t.status ≡ true → is_some t.status_reason ≡ true
  pub closed : is_some t.completed_at ≡ is_terminal t.status
  pub finished : (at : ℕ) → t.completed_at ≡ some at → t.updated_at ≤ at

validate_state_returns : (t u : Transaction) → validate_state t ≡ ok u → (u ≡ t) × IsValid t
unfolding validate_state
validate_state_returns t u e = (ground arith, ground arith)

validate_state_accepts : (t : Transaction) → IsValid t → validate_state t ≡ ok t
unfolding validate_state
validate_state_accepts t v = elim (Option-cases t.completed_at) [
  | inl open_ended ↦ let c = v.closed in ground arith
  | inr (at, closed_at) ↦ let c = v.closed in let f = v.finished at closed_at in ground arith
]

-- The validator accepts exactly the coherent snapshots, and returns them unchanged.
pub validate_state-IsValid : (t : Transaction) → (validate_state t ≡ ok t) ↔ IsValid t
validate_state-IsValid t = (λ e. (validate_state_returns t t e).1, validate_state_accepts t)

-- A snapshot that a transition of `t` to `status` returns.
pub record Moved (t : Transaction) (status : TransactionStatus) (u : Transaction) : Type 0 where
  pub legal : member status (legal_transitions t.status) ≡ true
  pub arrived : u.status ≡ status
  pub same_id : u.transaction_id ≡ t.transaction_id
  pub same_intents : u.intents ≡ t.intents
  pub same_start : u.created_at ≡ t.created_at
  pub valid : IsValid u

-- How a transition ends: with the next snapshot; with the refusal of a status that is not in the
-- table, the clock not read; or, the status in the table, with the refusal of the snapshot.
abbrev is_illegal : Error → Bool
is_illegal (illegal_transition _ _) = true
is_illegal _ = false

abbrev pub Outcome : Transaction → TransactionStatus → ℕ → Result Transaction × ℕ → Type 0
Outcome t status n (ok u, n') = Moved t status u
Outcome t status n (err e, n') =
    ((member status (legal_transitions t.status) ≡ false)
      × (e ≡ illegal_transition t.status status)
      × (n' ≡ n))
    ⊎ ((member status (legal_transitions t.status) ≡ true) × (is_illegal e ≡ false))

validate_state_refuses :
    (t : Transaction) (e : Error) → validate_state t ≡ err e → is_illegal e ≡ false
unfolding validate_state
validate_state_refuses t e q = ground arith

module _ (h : Host) (t : Transaction) (status : TransactionStatus)
    (args : TransitionArguments) where
  reason_refused : (e : Error) → checked_reason h args.status_reason ≡ err e → is_illegal e ≡ false
  reason_refused e q = ground arith

  pub next_snapshot_accepts :
      (at : ℕ) (reason : Option String)
      → checked_reason h args.status_reason ≡ ok reason
      → IsValid (snapshot t status args at reason)
      → next_snapshot h t status args at ≡ ok (snapshot t status args at reason)
  next_snapshot_accepts at reason accepted v =
      rw (accepted, next_snapshot) (validate_state_accepts (snapshot t status args at reason) v)

  next_snapshot_refuses :
      (at : ℕ) (e : Error) → next_snapshot h t status args at ≡ err e → is_illegal e ≡ false
  next_snapshot_refuses at e q = elim (Result-cases (checked_reason h args.status_reason)) [
    | inr (x, refused) ↦ ground (arith, reason_refused x refused)
    | inl (reason, accepted) ↦
        validate_state_refuses (snapshot t status args at reason) e (ground arith)
  ]

  next_snapshot-Moved :
      (at : ℕ) (u : Transaction)
      → member status (legal_transitions t.status) ≡ true
      → next_snapshot h t status args at ≡ ok u
      → Moved t status u
  next_snapshot-Moved at u legal q = elim (Result-cases (checked_reason h args.status_reason)) [
    | inr (x, refused) ↦ ground arith
    | inl (reason, accepted) ↦
        let next = snapshot t status args at reason in
        let (same, valid) = validate_state_returns next u (ground arith) in
        subst (Moved t status) (sym same) (record {
          legal = legal;
          arrived = refl;
          same_id = refl;
          same_intents = refl;
          same_start = refl;
          valid = valid;
        })
  ]

  next_snapshot-Outcome :
      (n at n' : ℕ)
      → member status (legal_transitions t.status) ≡ true
      → Outcome t status n (next_snapshot h t status args at, n')
  next_snapshot-Outcome n at n' legal = elim (Result-cases (next_snapshot h t status args at)) [
    | inl (u, made) ↦ rw made (next_snapshot-Moved at u legal made)
    | inr (e, refused) ↦ rw refused (inr (legal, next_snapshot_refuses at e refused))
  ]

  -- A transition moves to a status that the table allows from the current one, to a coherent
  -- snapshot of the same transaction; it refuses exactly the statuses that are not in the table as
  -- illegal, and without reading the clock.
  pub transition-Outcome : (n : ℕ) → Outcome t status n (transition h t status args n)
  unfolding transition
  transition-Outcome n = elim (Bool-cases (member status (legal_transitions t.status))) [
    | inr illegal ↦ rw illegal (inl (illegal, refl, refl))
    | inl legal ↦ rw legal (next_snapshot-Outcome n _ _ legal)
  ]

  pub transition-Moved :
      (n n' : ℕ) (u : Transaction) → transition h t status args n ≡ (ok u, n') → Moved t status u
  transition-Moved n n' u e = subst (Outcome t status n) e (transition-Outcome n)
