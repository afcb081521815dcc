-- ===== src/Transactions/Runs.antt =====
-- The status machine: the snapshots that transitions lead to, one after another.
use agent_actum.Base.{
  ℕ, suc, ◌+◌, ◌≤◌, String, ◌≡◌, refl, ◌∙◌, inl, inr, Bool, true, false, not, ◌||◌, ltb, none, some,
  List, [], ◌∷◌, In, member, member-In, all, Bool-cases, arith,
}
use agent_actum.Model.Enums.{
  TransactionStatus, proposed, validating, awaiting_approval, approved, executing, committed,
  rejected, failed, compensating, compensated, partially_compensated,
}
use agent_actum.Model.Exec.{ok}
use agent_actum.Model.Host.{Host, long_text}
use agent_actum.Transactions.Models.{
  Transaction, TransitionArguments, transition, legal_transitions, is_terminal,
  is_awaiting_approval, snapshot, status_eq,
}
use agent_actum.Transactions.Laws.{IsValid, next_snapshot_accepts, transition-Moved}

-- `Run h s t n`: `n` transitions that returned lead from the snapshot `s` to `t`.
pub data Run (h : Host) (s : Transaction) : Transaction → ℕ → Type 0 where
  here : Run h s s 0
  next :
      {t u : Transaction} {n : ℕ} (status : TransactionStatus) (args : TransitionArguments)
      (i j : ℕ)
      → Run h s t n
      → transition h t status args i ≡ (ok u, j)
      → Run h s u (suc n)

-- The greatest number of transitions that the table allows from a status.
abbrev pub moves_left : TransactionStatus → ℕ
moves_left proposed = 6
moves_left validating = 5
moves_left awaiting_approval = 4
moves_left approved = 3
moves_left executing = 2
moves_left compensating = 1
moves_left _ = 0

-- The statuses behind the approval of the transaction, and those in front of it.
abbrev pub past_approval : TransactionStatus → Bool
past_approval executing = true
past_approval committed = true
past_approval compensating = true
past_approval compensated = true
past_approval partially_compensated = true
past_approval _ = false

abbrev pub is_approved : TransactionStatus → Bool
is_approved approved = true
is_approved _ = false

is_approved_only : (s : TransactionStatus) → is_approved s ≡ true → s ≡ approved
is_approved_only s h = ground arith

all-In :
    (p : TransactionStatus → Bool) (xs : List TransactionStatus) (a : TransactionStatus)
    → all p xs ≡ true
    → In a xs
    → p a ≡ true
all-In p [] a h m = elim m [ ]
all-In p (x ∷ xs) a h (inl e) = ground arith
all-In p (x ∷ xs) a h (inr m) = all-In p xs a (ground arith) m

descends :
    (s : TransactionStatus)
    → all (λ a. ltb (moves_left a) (moves_left s)) (legal_transitions s) ≡ true
descends proposed = refl
descends validating = refl
descends awaiting_approval = refl
descends approved = refl
descends executing = refl
descends committed = refl
descends rejected = refl
descends failed = refl
descends compensating = refl
descends compensated = refl
descends partially_compensated = refl

guarded :
    (s : TransactionStatus)
    → all (λ a. not (past_approval a) || (past_approval s || is_approved s)) (legal_transitions s)
      ≡ true
guarded proposed = refl
guarded validating = refl
guarded awaiting_approval = refl
guarded approved = refl
guarded executing = refl
guarded committed = refl
guarded rejected = refl
guarded failed = refl
guarded compensating = refl
guarded compensated = refl
guarded partially_compensated = refl

legal_lem :
    (p : TransactionStatus → Bool) (s a : TransactionStatus)
    → all p (legal_transitions s) ≡ true
    → member a (legal_transitions s) ≡ true
    → p a ≡ true
legal_lem p s a h m = all-In p (legal_transitions s) a h (member-In a (legal_transitions s) m)

-- Every run is short: it makes no more transitions than are left at its first status, so at most
-- six; and a terminal snapshot is never left.
pub Run-bounded :
    (h : Host) {s t : Transaction} {n : ℕ}
    → Run h s t n
    → n + moves_left t.status ≤ moves_left s.status
Run-bounded h here = omega arith
Run-bounded h {s} (next {t} {u} status args i j run e) =
    let m = transition-Moved h t status args i j u e in
    let down = legal_lem _ t.status status (descends t.status) m.legal in
    let le = Run-bounded h run in let at = m.arrived in ground arith

-- A coherent transaction stays coherent along a run, and keeps its identifier, its intents and its
-- time of creation.
pub Run-keeps :
    (h : Host) {s t : Transaction} {n : ℕ}
    → Run h s t n
    → IsValid s
    → IsValid t
      × (t.transaction_id ≡ s.transaction_id)
      × (t.intents ≡ s.intents)
      × (t.created_at ≡ s.created_at)
Run-keeps h here v = (v, refl, refl, refl)
Run-keeps h (next status args i j run e) v =
    let (_, id, intents, start) = Run-keeps h run v in
    let m = transition-Moved h _ status args i j _ e in
    (m.valid, m.same_id ∙ id, m.same_intents ∙ intents, m.same_start ∙ start)

-- Nothing takes effect without approval: a run that ends past approval and starts before it passes
-- through an approved snapshot.
pub Run-approved :
    (h : Host) {s t : Transaction} {n : ℕ}
    → Run h s t n
    → past_approval s.status ≡ false
    → past_approval t.status ≡ true
    → (u : Transaction) × (i : ℕ) × (j : ℕ) × Run h s u i × (u.status ≡ approved) × Run h u t j
Run-approved h here before after = cc
Run-approved h {s} (next {t} {u} {n} status args i j run e) before after =
    let m = transition-Moved h t status args i j u e in
    let gate = legal_lem _ t.status status (guarded t.status) m.legal in
    let there : past_approval status ≡ true = rw m.arrived at after in
    elim (Bool-cases (past_approval t.status)) [
      | inl past ↦
          let (v, i', j', first, at, rest) = Run-approved h run before past in
          (v, i', suc j', first, at, next status args i j rest e)
      | inr not_yet ↦
          (t, n, 1, run, is_approved_only t.status (ground arith), next status args i j here e)
    ]

-- The status by which a transaction that is not terminal can always end.
abbrev pub give_up : TransactionStatus → TransactionStatus
give_up executing = failed
give_up compensating = failed
give_up _ = rejected

record Ends (s : TransactionStatus) : Type 0 where
  legal : member (give_up s) (legal_transitions s) ≡ true
  terminal : is_terminal (give_up s) ≡ true
  not_awaiting : is_awaiting_approval (give_up s) ≡ false

give_up-Ends : (s : TransactionStatus) → is_terminal s ≡ false → Ends s
give_up-Ends proposed h = record { legal = refl; terminal = refl; not_awaiting = refl }
give_up-Ends validating h = record { legal = refl; terminal = refl; not_awaiting = refl }
give_up-Ends awaiting_approval h = record { legal = refl; terminal = refl; not_awaiting = refl }
give_up-Ends approved h = record { legal = refl; terminal = refl; not_awaiting = refl }
give_up-Ends executing h = record { legal = refl; terminal = refl; not_awaiting = refl }
give_up-Ends committed h = cc
give_up-Ends rejected h = cc
give_up-Ends failed h = cc
give_up-Ends compensating h = record { legal = refl; terminal = refl; not_awaiting = refl }
give_up-Ends compensated h = cc
give_up-Ends partially_compensated h = cc

abbrev pub ending : String → ℕ → TransitionArguments
ending reason at = record {
  updated_at = some at;
  approval_request_ids = none;
  status_reason = some reason;
  completed_at = none;
}

-- No coherent transaction is stuck: one that is not terminal is ended by a transition to REJECTED
-- or FAILED, at any time from its creation on and for any reason that is a `LongText`.
pub transition_ends :
    (h : Host) (t : Transaction) (reason stored : String) (at n : ℕ)
    → IsValid t
    → is_terminal t.status ≡ false
    → h.accept long_text reason ≡ some stored
    → t.created_at ≤ at
    → (u : Transaction) × (transition h t (give_up t.status) (ending reason at) n ≡ (ok u, n))
      × (is_terminal u.status ≡ true)
unfolding transition
transition_ends h t reason stored at n v open_ended accepted later =
    let e = give_up-Ends t.status open_ended in
    let args = ending reason at in
    let u = snapshot t (give_up t.status) args at (some stored) in
    let valid : IsValid u = record {
      has_intents = v.has_intents;
      unique_intents = v.unique_intents;
      unique_requests = v.unique_requests;
      ordered = later;
      requested = λ a. ground (arith, e.not_awaiting);
      explained = λ _. refl;
      closed = ground (arith, e.terminal);
      finished = λ i q. ground (arith, e.terminal);
    } in
    let made =
      next_snapshot_accepts h t (give_up t.status) args at (some stored) (ground arith) valid in
    (u, rw (e.legal, made) refl, e.terminal)
