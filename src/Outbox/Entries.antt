-- ===== src/Outbox/Entries.antt =====
-- How the entries of the outbox's dictionaries fit together.
use agent_actum.Base.{
  ℕ, ◌<◌, ◌≤◌, nat_eq, nat_beq_iff, ◌==◌, ◌≡◌, refl, sym, ◌∙◌, subst, inl, inr, true, Option, some,
  is_some, lookup, lookup-insert, lookup-insert_self, insert, Bool-cases, arith,
}
use agent_actum.Model.Exec.{ok, Result-cases}
use agent_actum.Model.Host.{Host}
use agent_actum.Ledger.Models.{Ledger}
use agent_actum.Outbox.Models.{OutboxOperation, validate_status_fields}
use agent_actum.Outbox.Memory.{
  InMemoryOutboxBackend, StageArguments, stage, staged_operation, release,
}
use agent_actum.Outbox.Releases.{recorded_state, release-Invoked}

-- An entry of `_operations`: it stands under its own identifier, which `uuid4` has answered, and has
-- a handler.
pub record Entry {L : Type 0} (h : Host) (s : InMemoryOutboxBackend L) (id : ℕ)
    (o : OutboxOperation) : Type 0 where
  pub own_id : o.operation_id ≡ id
  pub has_handler : is_some (lookup id s.handlers) ≡ true
  pub drawn_at : (m : ℕ) × (m < s.drawn) × (h.uuid4 m ≡ id)

abbrev pub WellFormed : {L : Type 0} → Host → InMemoryOutboxBackend L → Type 0
WellFormed h s = (id : ℕ) (o : OutboxOperation) → lookup id s.operations ≡ some o → Entry h s id o

-- An entry of a later state, whose handlers still have the operation's.
Entry-later :
    {L : Type 0} (h : Host) (s t : InMemoryOutboxBackend L) (id : ℕ) (o o' : OutboxOperation)
    → Entry h s id o
    → o'.operation_id ≡ o.operation_id
    → is_some (lookup id t.handlers) ≡ true
    → s.drawn ≤ t.drawn
    → Entry h t id o'
Entry-later h s t id o o' entry same kept later =
    let (m, before, answered) = entry.drawn_at in
    record {
      own_id = same ∙ entry.own_id;
      has_handler = kept;
      drawn_at = (m, omega (arith, before, later), answered);
    }

insert-WellFormed :
    {L : Type 0} (h : Host) (s t : InMemoryOutboxBackend L) (j : ℕ) (n : OutboxOperation)
    → t.operations ≡ insert j n s.operations
    → Entry h t j n
    → ((id : ℕ) (o : OutboxOperation) → Entry h s id o → Entry h t id o)
    → WellFormed h s
    → WellFormed h t
insert-WellFormed h s t j n grown new old wf id o found = elim (Bool-cases (j == id)) [
  | inl same ↦
      let e : j ≡ id = (nat_beq_iff j id).0 same in
      let f : n ≡ o = ground (arith, lookup-insert j id n s.operations) in
      subst (λ i. Entry h t i o) e (subst (Entry h t j) f new)
  | inr differ ↦ old id o (wf id o (ground (arith, lookup-insert j id n s.operations)))
]

module _ {L : Type 0} (h : Host) (ledger : Option (Ledger L)) where
  pub staged_operation-id :
      (args : StageArguments) (n : ℕ) (o : OutboxOperation)
      → staged_operation h args n ≡ ok o
      → o.operation_id ≡ h.uuid4 n
  unfolding validate_status_fields
  staged_operation-id args n o e = ground arith

  handler_kept :
      (args : StageArguments) (s : InMemoryOutboxBackend L) (j id : ℕ)
      → is_some (lookup id s.handlers) ≡ true
      → is_some (lookup id (insert j args.handler s.handlers)) ≡ true
  handler_kept args s j id kept = ground (arith, lookup-insert j id args.handler s.handlers)

  pub stage-WellFormed :
      (args : StageArguments) (s : InMemoryOutboxBackend L)
      → WellFormed h s
      → WellFormed h (stage h ledger args s).1
  unfolding stage
  stage-WellFormed args s wf = elim (Result-cases (staged_operation h args s.drawn)) [
    | inr (e, refused) ↦ rw refused (λ id o found.
        Entry-later h s _ id o o (wf id o found) refl (wf id o found).has_handler (omega arith))
    | inl (n, made) ↦ rw made (
        recorded_state h ledger (WellFormed h) "outbox.staged" n _ (λ l.
          insert-WellFormed h s _ n.operation_id n refl
            (record {
              own_id = refl;
              has_handler =
                  ground (arith, lookup-insert_self n.operation_id args.handler s.handlers);
              drawn_at = (s.drawn, omega arith, sym (staged_operation-id args s.drawn n made));
            })
            (λ id o entry.
              Entry-later h s _ id o o entry refl
                (handler_kept args s n.operation_id id entry.has_handler) (omega arith))
            wf))
  ]

  pub release-WellFormed :
      (j : ℕ) (s : InMemoryOutboxBackend L) → WellFormed h s → WellFormed h (release h ledger j s).1
  release-WellFormed j s wf = elim (release-Invoked h ledger j s) [
    | inl unmoved ↦ subst (WellFormed h) (sym unmoved.same) wf
    | inr i ↦
        let kept =
          λ (id : ℕ) (o o' : OutboxOperation) (entry : Entry h s id o)
              (same : o'.operation_id ≡ o.operation_id).
            Entry-later h s (release h ledger j s).1 id o o' entry same
              (subst (λ hs. is_some (lookup id hs) ≡ true) (sym i.handlers) entry.has_handler)
              (omega (arith, i.drawn)) in
        elim i.settled [
          | inl (same, _) ↦ λ id o found.
              kept id o o (wf id o (subst (λ os. lookup id os ≡ some o) same found)) refl
          | inr (o', settled) ↦
              insert-WellFormed h s _ j o' settled.stored
                (kept j i.operation o' (wf j i.operation i.found) settled.same_id)
                (λ id o entry. kept id o o entry refl) wf
        ]
  ]
