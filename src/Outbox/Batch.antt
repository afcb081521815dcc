-- ===== src/Outbox/Batch.antt =====
-- What `release_all` has done when it returns, and what a release does whose output is refused.
use agent_actum.Base.{
  sym, not, select, ℕ, nat_eq, ◌≡◌, refl, ap, ◌∙◌, subst, true, false, Option, some, List, [], ◌∷◌,
  ◌++◌, lookup, Bool-cases, inl, inr, arith,
}
use agent_actum.Model.Json.{Value}
use agent_actum.Model.Exec.{ok, err, validation, pure, >>=-eq-ok}
use agent_actum.Model.Host.{Host}
use agent_actum.Ledger.Models.{Ledger}
use agent_actum.Outbox.Models.{OutboxOperation, is_staged, is_released, OutboxReleaseSummary}
use agent_actum.Outbox.Memory.{
  OutboxHandler, InMemoryOutboxBackend, release, release_each, release_all, staged_operations,
  sort_result, invoked, OutboxCall,
}
use agent_actum.Outbox.Steps.{release_each_keeps}
use agent_actum.Outbox.Once.{release_keeps, release-settles}

module _ {L : Type 0} (h : Host) (ledger : Option (Ledger L)) where
  -- The results are those of the operations, one for each and in their order: what the outbox holds
  -- in `t` under the operation's identifier, and it is no longer staged.
  abbrev pub SettledIn :
      InMemoryOutboxBackend L → List OutboxOperation → List OutboxOperation → Type 0
  SettledIn t [] [] = Unit
  SettledIn t [] (r ∷ rs) = ⊥
  SettledIn t (o ∷ os) [] = ⊥
  SettledIn t (o ∷ os) (r ∷ rs) =
      ((lookup o.operation_id t.operations ≡ some r) × (is_staged r.status ≡ false))
      × SettledIn t os rs

  -- The released ones of the results, and apart from them the others, each in their order.
  abbrev pub sorted_results : List OutboxOperation → List OutboxOperation × List OutboxOperation
  sorted_results rs =
      (select (λ r. is_released r.status) rs, select (λ r. not (is_released r.status)) rs)

  sort_result-eq :
      (r : OutboxOperation) (rs : List OutboxOperation)
      → sort_result h ledger r (sorted_results rs) ≡ sorted_results (r ∷ rs)
  sort_result-eq r rs = elim (Bool-cases (is_released r.status)) [
    | inl went ↦ rw went refl
    | inr stuck ↦ rw stuck refl
  ]

  release_each_keeps_found :
      (id : ℕ) (o : OutboxOperation)
      → is_staged o.status ≡ false
      → (os : List OutboxOperation) (s : InMemoryOutboxBackend L) → lookup id s.operations ≡ some o
      → lookup id (release_each h ledger os s).1.operations ≡ some o
  release_each_keeps_found id o settled =
      release_each_keeps h ledger (λ u. lookup id u.operations ≡ some o)
        (release_keeps h ledger id o settled)

  release_each_settles :
      (os : List OutboxOperation) (s t : InMemoryOutboxBackend L)
      (sorted : List OutboxOperation × List OutboxOperation)
      → release_each h ledger os s ≡ (ok sorted, t)
      → (rs : List OutboxOperation) × SettledIn t os rs × (sorted ≡ sorted_results rs)
  unfolding release_each pure
  release_each_settles [] s t sorted e = ([], tt, ground (arith, e))
  release_each_settles (o ∷ os) s t sorted e =
      let (result, u, first, e') = >>=-eq-ok (release h ledger o.operation_id) _ s t e in
      let (others, v, rest, done) =
        >>=-eq-ok (release_each h ledger os) (λ r. pure (sort_result h ledger result r)) u t e' in
      let (found, settled) = release-settles h ledger o.operation_id s u result first in
      let (rs, all_settled, all_sorted) = release_each_settles os u v others rest in
      let kept = release_each_keeps_found o.operation_id result settled os u found in
      let last : v ≡ t = ap (λ p. p.1) done in
      let shown : sort_result h ledger result others ≡ sorted = ground (arith, done) in
      (
        result ∷ rs,
        (
          (
            subst (λ w. lookup o.operation_id w.operations ≡ some result)
                (ap (λ p. p.1) rest ∙ last) kept,
            settled,
          ),
          subst (λ w. SettledIn w os rs) last all_settled,
        ),
        sym shown ∙ (ap (sort_result h ledger result) all_sorted ∙ sort_result-eq result rs),
      )

  -- If `release_all` returns, then every operation of the transaction that was staged has been
  -- settled, and the summary lists exactly these operations, in their order and as the outbox then
  -- holds them under their identifiers: the released ones, and apart from them the failed.
  pub release_all-SettledIn :
      (id : ℕ) (s t : InMemoryOutboxBackend L) (summary : OutboxReleaseSummary)
      → release_all h ledger id s ≡ (ok summary, t)
      → (rs : List OutboxOperation) × SettledIn t (staged_operations h ledger id s) rs
        × ((summary.released, summary.failed) ≡ sorted_results rs)
  unfolding release_all pure
  release_all-SettledIn id s t summary e =
      let os = staged_operations h ledger id s in
      let (sorted, u, loop, done) = >>=-eq-ok (release_each h ledger os) _ s t e in
      let (rs, settled, all_sorted) = release_each_settles os s u sorted loop in
      let last : u ≡ t = ap (λ p. p.1) done in
      let shown : sorted ≡ (summary.released, summary.failed) = ground (arith, done) in
      (rs, subst (λ w. SettledIn w os rs) last settled, sym shown ∙ all_sorted)

  release_refused :
      (id : ℕ) (s : InMemoryOutboxBackend L) (o : OutboxOperation) (handler : OutboxHandler)
      (output : Value)
      → lookup id s.operations ≡ some o
      → is_staged o.status ≡ true
      → lookup id s.handlers ≡ some handler
      → handler o.arguments s.calls ≡ ok output
      → h.json output ≡ false
      → release h ledger id s ≡ (err (validation "output"), invoked h ledger id o s)
  unfolding release
  release_refused id s o handler output found waiting present answered refused =
      rw (found, waiting, present, answered, refused) refl

  -- A handler that has returned what is no `JsonValue` is invoked again by the next release: the
  -- release raises behind the call, and the operation is still staged.
  pub release_again :
      (id : ℕ) (s : InMemoryOutboxBackend L) (o : OutboxOperation) (handler : OutboxHandler)
      (output : Value)
      → lookup id s.operations ≡ some o
      → is_staged o.status ≡ true
      → lookup id s.handlers ≡ some handler
      → ((calls : List OutboxCall) → handler o.arguments calls ≡ ok output)
      → h.json output ≡ false
      → let call : OutboxCall = record { operation_id = id; arguments = o.arguments } in
        (release h ledger id s).0 ≡ err (validation "output")
        × ((release h ledger id (release h ledger id s).1).1.calls
            ≡ (s.calls ++ call ∷ []) ++ call ∷ [])
  release_again id s o handler output found waiting present answered refused =
      let once = release_refused id s o handler output found waiting present (answered _) refused in
      let again =
        release_refused id (invoked h ledger id o s) o handler output found waiting present
          (answered _) refused in
      (ap (λ p. p.0) once, rw once (ap (λ p. p.1.calls) again))
