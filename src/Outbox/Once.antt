-- ===== src/Outbox/Once.antt =====
-- An operation after its release, whatever calls follow.
use agent_actum.Base.{
  ℕ, nat_eq, ◌==◌, ◌≡◌, ◌≢◌, refl, sym, ap, ◌∙◌, subst, inl, inr, false, Option, none, some, List,
  [], ◌∷◌, ◌++◌, lookup, lookup-insert_self, lookup-insert_ne, insert, select, arith,
}
use agent_actum.Model.Exec.{ok, returned, Result-cases}
use agent_actum.Model.Host.{Host}
use agent_actum.Ledger.Models.{Ledger}
use agent_actum.Outbox.Models.{OutboxOperation, is_staged}
use agent_actum.Outbox.Memory.{
  OutboxCall, InMemoryOutboxBackend, StageArguments, stage, staged_operation, release,
}
use agent_actum.Outbox.Entries.{
  WellFormed, staged_operation-id, stage-WellFormed, release-WellFormed,
}
use agent_actum.Outbox.Steps.{Reach, Reach-keeps_all}
use agent_actum.Outbox.Releases.{recorded_state, Invoked, release-Invoked}

-- The invocations of the handler of one operation.
abbrev pub calls_of : ℕ → List OutboxCall → List OutboxCall
calls_of id calls = select (λ c. c.operation_id == id) calls

calls_of_other :
    (id : ℕ) (calls : List OutboxCall) (c : OutboxCall)
    → c.operation_id ≢ id
    → calls_of id (calls ++ c ∷ []) ≡ calls_of id calls
calls_of_other id [] c other = ground arith
calls_of_other id (x ∷ calls) c other = ground (arith, calls_of_other id calls c other)

module _ {L : Type 0} (h : Host) (ledger : Option (Ledger L)) where
  -- An operation that is no longer staged, with the invocations of its handler so far.
  record Closed (id : ℕ) (o : OutboxOperation) (calls : List OutboxCall)
      (s : InMemoryOutboxBackend L) : Type 0 where
    well_formed : WellFormed h s
    found : lookup id s.operations ≡ some o
    same_calls : calls_of id s.calls ≡ calls

  stage_keeps :
      (id : ℕ) (args : StageArguments) (s : InMemoryOutboxBackend L)
      → h.uuid4 s.drawn ≢ id
      → (lookup id (stage h ledger args s).1.operations ≡ lookup id s.operations)
        × ((stage h ledger args s).1.calls ≡ s.calls)
  unfolding stage
  stage_keeps id args s other = elim (Result-cases (staged_operation h args s.drawn)) [
    | inr (e, refused) ↦ rw refused (refl, refl)
    | inl (n, made) ↦ rw made (
        recorded_state h ledger
          (λ u. (lookup id u.operations ≡ lookup id s.operations) × (u.calls ≡ s.calls))
          "outbox.staged" n _
          (λ l. (
            lookup-insert_ne n.operation_id id n s.operations
                (λ e. other (sym (staged_operation-id h ledger args s.drawn n made) ∙ e)),
            refl,
          )))
  ]

  -- A release leaves every operation that is not staged as it is.
  release_other :
      (id j : ℕ) (s : InMemoryOutboxBackend L) (o : OutboxOperation)
      → lookup id s.operations ≡ some o
      → is_staged o.status ≡ false
      → Invoked j s (release h ledger j s)
      → j ≢ id
  release_other id j s o found settled i same =
      let f : lookup j s.operations ≡ some o = rw same found in
      ground (arith, i.found, i.was_staged)

  pub release_keeps :
      (id : ℕ) (o : OutboxOperation)
      → is_staged o.status ≡ false
      → (j : ℕ) (s : InMemoryOutboxBackend L) → lookup id s.operations ≡ some o
      → lookup id (release h ledger j s).1.operations ≡ some o
  release_keeps id o settled j s found = elim (release-Invoked h ledger j s) [
    | inl unmoved ↦ ap (λ u. lookup id u.operations) unmoved.same ∙ found
    | inr i ↦ elim i.settled [
      | inl (same, _) ↦ ap (lookup id) same ∙ found
      | inr (o', e) ↦
          ap (lookup id) e.stored
          ∙ (lookup-insert_ne j id o' s.operations (release_other id j s o found settled i) ∙ found)
    ]
  ]

  -- The settled operation of a release that returned.
  pub release-settles :
      (id : ℕ) (s t : InMemoryOutboxBackend L) (o : OutboxOperation)
      → release h ledger id s ≡ (ok o, t)
      → (lookup id t.operations ≡ some o) × (is_staged o.status ≡ false)
  release-settles id s t o e = elim (release-Invoked h ledger id s) [
    | inl unmoved ↦
        let (found, settled) = unmoved.shown o (ap (λ p. p.0) e) in
        (
          subst (λ u. lookup id u.operations ≡ some o) (sym unmoved.same ∙ ap (λ p. p.1) e) found,
          settled,
        )
    | inr i ↦ elim i.settled [
      | inl (_, raised) ↦
          let never : returned (ok o) ≡ none =
            subst (λ r. returned r ≡ none) (ap (λ p. p.0) e) raised in
          cc
      | inr (o', settled) ↦
          let same = settled.answer o (ap (λ p. p.0) e) in
          let stored : t.operations ≡ insert id o' s.operations =
            subst (λ u. u.operations ≡ insert id o' s.operations) (ap (λ p. p.1) e)
              settled.stored in
          (
            rw stored (ground (arith, lookup-insert_self id o' s.operations)),
            rw same settled.not_staged,
          )
    ]
  ]

  module _ (distinct_uuids : (m n : ℕ) → h.uuid4 m ≡ h.uuid4 n → m ≡ n) (id : ℕ)
      (o : OutboxOperation) (calls : List OutboxCall) (settled : is_staged o.status ≡ false) where
    fresh : (s : InMemoryOutboxBackend L) → Closed id o calls s → h.uuid4 s.drawn ≢ id
    fresh s c same =
        let (m, before, answered) = (c.well_formed id o c.found).drawn_at in
        let e = distinct_uuids s.drawn m (same ∙ sym answered) in omega arith

    stage-Closed :
        (args : StageArguments) (s : InMemoryOutboxBackend L)
        → Closed id o calls s
        → Closed id o calls (stage h ledger args s).1
    stage-Closed args s c = record {
      well_formed = stage-WellFormed h ledger args s c.well_formed;
      found = (stage_keeps id args s (fresh s c)).0 ∙ c.found;
      same_calls = ap (calls_of id) (stage_keeps id args s (fresh s c)).1 ∙ c.same_calls;
    }

    release-Closed :
        (j : ℕ) (s : InMemoryOutboxBackend L)
        → Closed id o calls s
        → Closed id o calls (release h ledger j s).1
    release-Closed j s c = elim (release-Invoked h ledger j s) [
      | inl unmoved ↦ subst (Closed id o calls) (sym unmoved.same) c
      | inr i ↦ record {
        well_formed = release-WellFormed h ledger j s c.well_formed;
        found = release_keeps id o settled j s c.found;
        same_calls =
            rw i.calls (
              calls_of_other id s.calls _ (release_other id j s o c.found settled i)
              ∙ c.same_calls);
      }
    ]

  -- A handler is invoked no more once a release of its operation has returned: after any further
  -- calls of the outbox, the operation is what that release returned, and its handler has had no
  -- further invocation.
  pub released_once :
      ((m n : ℕ) → h.uuid4 m ≡ h.uuid4 n → m ≡ n)
      → (id : ℕ) (s : InMemoryOutboxBackend L) {t u : InMemoryOutboxBackend L} {o : OutboxOperation}
      → WellFormed h s
      → release h ledger id s ≡ (ok o, t)
      → Reach h ledger t u
      → (lookup id u.operations ≡ some o) × (calls_of id u.calls ≡ calls_of id t.calls)
  released_once distinct_uuids id s {t} {u} {o} wf e run =
      let (found, settled) = release-settles id s t o e in
      let calls = calls_of id t.calls in
      let start : Closed id o calls t = record {
        well_formed = subst (WellFormed h) (ap (λ p. p.1) e) (release-WellFormed h ledger id s wf);
        found = found;
        same_calls = refl;
      } in
      let end =
        Reach-keeps_all h ledger (Closed id o calls)
          (release-Closed distinct_uuids id o calls settled)
          (stage-Closed distinct_uuids id o calls settled) run start in
      (end.found, end.same_calls)

  -- From a well-formed outbox, any calls lead to a well-formed outbox.
  pub Reach-WellFormed :
      {s t : InMemoryOutboxBackend L} → Reach h ledger s t → WellFormed h s → WellFormed h t
  Reach-WellFormed =
      Reach-keeps_all h ledger (WellFormed h) (release-WellFormed h ledger)
        (stage-WellFormed h ledger)
