-- ===== src/Outbox/Releases.antt =====
-- What one release does, on every branch.
use agent_actum.Base.{
  ℕ, suc, nat_eq, String, ◌≡◌, refl, ap, subst, ◌⊎◌, inl, inr, true, false, Option, none, some, [],
  ◌∷◌, ◌++◌, lookup, insert, Option-cases, Bool-cases, arith,
}
use agent_actum.Model.Json.{Value}
use agent_actum.Model.Exec.{Result, ok, returned, Result-cases, bind_elim, ◌>>=◌, pure}
use agent_actum.Model.Host.{Host}
use agent_actum.Ledger.Models.{Ledger}
use agent_actum.Outbox.Models.{OutboxOperation, is_staged, validate_status_fields}
use agent_actum.Outbox.Memory.{
  OutboxHandler, InMemoryOutboxBackend, release, released_operation, recorded, append_event,
  store_release, release_event, invoke, invoked,
}

-- A release that changed nothing: of an operation that is not staged, or that has no handler.
pub record Unmoved {L : Type 0} (id : ℕ) (s : InMemoryOutboxBackend L)
    (p : Result OutboxOperation × InMemoryOutboxBackend L) : Type 0 where
  pub same : p.1 ≡ s
  pub idle :
      (o : OutboxOperation) (handler : OutboxHandler)
      → lookup id s.operations ≡ some o
      → lookup id s.handlers ≡ some handler
      → is_staged o.status ≡ false
  pub shown :
      (o : OutboxOperation)
      → p.0 ≡ ok o
      → (lookup id s.operations ≡ some o) × (is_staged o.status ≡ false)

-- The operation `o` has been settled as `o'`: it was stored, and is the answer, unless the ledger
-- raised.
pub record Settled {L : Type 0} (id : ℕ) (s : InMemoryOutboxBackend L) (o : OutboxOperation)
    (p : Result OutboxOperation × InMemoryOutboxBackend L) (o' : OutboxOperation) : Type 0 where
  pub stored : p.1.operations ≡ insert id o' s.operations
  pub not_staged : is_staged o'.status ≡ false
  pub same_id : o'.operation_id ≡ o.operation_id
  pub same_transaction : o'.transaction_id ≡ o.transaction_id
  pub answer : (o'' : OutboxOperation) → p.0 ≡ ok o'' → o'' ≡ o'

-- A release that invoked the handler, once, with the operation's arguments. If the settled
-- operation was refused, the release raised and the operation is still staged.
pub record Invoked {L : Type 0} (id : ℕ) (s : InMemoryOutboxBackend L)
    (p : Result OutboxOperation × InMemoryOutboxBackend L) : Type 0 where
  pub operation : OutboxOperation
  pub found : lookup id s.operations ≡ some operation
  pub was_staged : is_staged operation.status ≡ true
  pub calls :
      p.1.calls ≡ s.calls ++ record { operation_id = id; arguments = operation.arguments } ∷ []
  pub drawn : p.1.drawn ≡ suc s.drawn
  pub handlers : p.1.handlers ≡ s.handlers
  pub settled :
      ((p.1.operations ≡ s.operations) × (returned p.0 ≡ none))
      ⊎ ((o' : OutboxOperation) × Settled id s operation p o')

validate_keeps : (o o' : OutboxOperation) → validate_status_fields o ≡ ok o' → o' ≡ o
unfolding validate_status_fields
validate_keeps o o' e = ground arith

released_operation_settles :
    (h : Host) (o : OutboxOperation) (r : Result Value) (at : ℕ) (o' : OutboxOperation)
    → released_operation h o r at ≡ ok o'
    → (is_staged o'.status ≡ false)
      × (o'.operation_id ≡ o.operation_id)
      × (o'.transaction_id ≡ o.transaction_id)
unfolding validate_status_fields
released_operation_settles h o r at o' e = ground arith

module _ {L : Type 0} (h : Host) (ledger : Option (Ledger L)) where
  -- The event changes the ledger's state only.
  pub recorded_state :
      (P : InMemoryOutboxBackend L → Type 0) (event_type : String) (o : OutboxOperation)
      (s : InMemoryOutboxBackend L)
      → ((l : L) → P (record s { ledger = l }))
      → P (recorded h ledger event_type o s).1
  unfolding append_event pure
  recorded_state P event_type o s every =
      bind_elim (append_event h ledger event_type o) (λ _. pure o) s P
        (λ e u q. subst P (ap (λ p. p.1) q) (every _))
        (λ _ u q. subst P (ap (λ p. p.1) q) (every _))

  pub recorded_answer :
      (event_type : String) (o o' : OutboxOperation) (s : InMemoryOutboxBackend L)
      → (recorded h ledger event_type o s).0 ≡ ok o'
      → o' ≡ o
  unfolding ◌>>=◌ pure
  recorded_answer event_type o o' s e = ground arith

  module _ (id : ℕ) (s : InMemoryOutboxBackend L) (o : OutboxOperation) (handler : OutboxHandler)
      (found : lookup id s.operations ≡ some o) (waiting : is_staged o.status ≡ true) where
    abbrev outcome : Result OutboxOperation
    outcome = released_operation h o (handler o.arguments s.calls) (h.clock s.drawn)

    abbrev after_call : InMemoryOutboxBackend L
    after_call = invoked h ledger id o s

    Settled-stored :
        (o' : OutboxOperation)
        → outcome ≡ ok o'
        → Invoked id s (store_release h ledger id (ok o') after_call)
    Settled-stored o' e =
        let (not_staged, same_id, same_transaction) =
          released_operation_settles h o (handler o.arguments s.calls) (h.clock s.drawn) o' e in
        let stored = record after_call { operations = insert id o' s.operations } in
        let event = release_event h ledger o'.status in
        let p = recorded h ledger event o' stored in
        record {
          operation = o;
          found = found;
          was_staged = waiting;
          calls = recorded_state (λ u. u.calls ≡ after_call.calls) event o' stored (λ l. refl);
          drawn = recorded_state (λ u. u.drawn ≡ suc s.drawn) event o' stored (λ l. refl);
          handlers = recorded_state (λ u. u.handlers ≡ s.handlers) event o' stored (λ l. refl);
          settled = inr (
            o',
            record {
              stored =
                  recorded_state (λ u. u.operations ≡ insert id o' s.operations) event o' stored
                    (λ l. refl);
              not_staged = not_staged;
              same_id = same_id;
              same_transaction = same_transaction;
              answer = λ o'' q. recorded_answer event o' o'' stored q;
            },
          );
        }

    invoke-Invoked : Invoked id s (invoke h ledger id o handler s)
    invoke-Invoked = elim (Result-cases outcome) [
      | inl (o', made) ↦ rw made (Settled-stored o' made)
      | inr (e, refused) ↦ rw refused (record {
        operation = o;
        found = found;
        was_staged = waiting;
        calls = refl;
        drawn = refl;
        handlers = refl;
        settled = inl (refl, refl);
      })
    ]

  pub release-Invoked :
      (id : ℕ) (s : InMemoryOutboxBackend L)
      → Unmoved id s (release h ledger id s) ⊎ Invoked id s (release h ledger id s)
  unfolding release
  release-Invoked id s = elim (Option-cases (lookup id s.operations)) [
    | inl unknown ↦
        rw unknown
          (inl (record { same = refl; idle = λ o handler a _. ground arith; shown = λ o q. cc }))
    | inr (o, found) ↦ elim (Bool-cases (is_staged o.status)) [
      | inr settled ↦
          rw (found, settled)
            (inl (record {
              same = refl;
              idle = λ o handler a _. ground arith;
              shown = λ o' q. ground arith;
            }))
      | inl waiting ↦ elim (Option-cases (lookup id s.handlers)) [
        | inl absent ↦
            rw (found, waiting, absent)
              (inl
                (record { same = refl; idle = λ o handler _ b. ground arith; shown = λ o q. cc }))
        | inr (handler, present) ↦
            rw (found, waiting, present) (inr (invoke-Invoked id s o handler found waiting))
      ]
    ]
  ]
