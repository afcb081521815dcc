-- ===== src/Compensation/Attempts.antt =====
-- What the loop of the coordinator does with one plan.
use agent_actum.Base.{
  ℕ, String, ◌≡◌, refl, ap, subst, ◌∙◌, sym, Bool, true, false, ◌&&◌, ◌||◌, Option, none, some,
  is_some, is_none, [], ◌∷◌, ◌++◌, Bool-cases, inl, inr, arith,
}
use agent_actum.Model.Enums.{
  EffectType, irreversible, read_only, idempotent, reversible, compensatable, stageable,
}
use agent_actum.Model.Json.{Value, JsonObject}
use agent_actum.Model.Exec.{Result, ok, returned, pure, >>=-eq-ok}
use agent_actum.Model.Host.{Host}
use agent_actum.Ledger.Models.{Ledger}
use agent_actum.Execution.Models.{ExecutionResult}
use agent_actum.Compensation.Models.{
  CompensationResult, CompensationPlan, Compensator, validate_result, is_compensatable,
}
use agent_actum.Compensation.Coordinator.{
  CoordinatorState, Entry, skipped, uncompensated, attempted, append_event, now, call, conclude,
  compensation_result, attempt_compensation, attempt, note, compensate_one, with_compensator,
  by_effect, attempt_event,
}

-- Completed effects whose compensator is called, and those that cannot be compensated: irreversible
-- ones, and compensatable ones without a compensator.
abbrev pub is_irreversible : EffectType → Bool
is_irreversible irreversible = true
is_irreversible _ = false

abbrev pub is_target : CompensationPlan → Bool
is_target p = p.execution.succeeded && (is_compensatable p.effect_type && is_some p.compensator)

abbrev pub is_left : CompensationPlan → Bool
is_left p =
    p.execution.succeeded
    && (is_irreversible p.effect_type || (is_compensatable p.effect_type && is_none p.compensator))

-- The result of an attempt on the plan: of its execution, and a success exactly if the compensator
-- returned.
pub record ResultOf (p : CompensationPlan) (answer : Result Value) (r : CompensationResult)
    : Type 0 where
  pub same_execution : r.execution_id ≡ p.execution.execution_id
  pub same_transaction : r.transaction_id ≡ p.execution.transaction_id
  pub same_intent : r.intent_id ≡ p.execution.intent_id
  pub honest : r.succeeded ≡ is_some (returned answer)

compensation_result-ResultOf :
    (h : Host) (p : CompensationPlan) (started id at : ℕ) (answer : Result Value)
    (r : CompensationResult)
    → compensation_result h p started answer id at ≡ ok r
    → ResultOf p answer r
unfolding validate_result
compensation_result-ResultOf h p started id at answer r e = ground arith

module _ {L : Type 0} (h : Host) (ledger : Option (Ledger L)) where
  append_event_calls :
      (event_type : String) (execution : ExecutionResult) (details : Option JsonObject)
      (s t : CoordinatorState L) (u : Unit {0})
      → append_event h ledger event_type execution details s ≡ (ok u, t)
      → t.calls ≡ s.calls
  unfolding append_event
  append_event_calls event_type execution details s t u e = sym (ap (λ p. p.1.calls) e)

  pub attempt_compensation-ResultOf :
      (p : CompensationPlan) (compensator : Compensator) (s t : CoordinatorState L)
      (r : CompensationResult)
      → attempt_compensation h ledger p compensator s ≡ (ok r, t)
      → (t.calls ≡ s.calls ++ p.execution ∷ []) × ResultOf p (compensator p.execution s.calls) r
  unfolding attempt_compensation now call conclude pure
  attempt_compensation-ResultOf p compensator s t r e =
      let (started, s1, e1, k1) = >>=-eq-ok (now h ledger) _ s t e in
      let (u2, s2, e2, k2) =
        >>=-eq-ok (append_event h ledger "compensation.attempted" p.execution none) _ s1 t k1 in
      let (answer, s3, e3, k3) = >>=-eq-ok (call h ledger compensator p.execution) _ s2 t k2 in
      let (result, s4, e4, k4) = >>=-eq-ok (conclude h ledger p started answer) _ s3 t k3 in
      let (u5, s5, e5, k5) =
        >>=-eq-ok (append_event h ledger (attempt_event h ledger result) p.execution _) _ s4 t k4 in
      let seen : s2.calls ≡ s.calls =
        append_event_calls "compensation.attempted" p.execution none s1 s2 u2 e2
        ∙ sym (ap (λ q. q.1.calls) e1) in
      let called : s3.calls ≡ s2.calls ++ p.execution ∷ [] = sym (ap (λ q. q.1.calls) e3) in
      let kept : s5.calls ≡ s3.calls =
        append_event_calls (attempt_event h ledger result) p.execution _ s4 s5 u5 e5
        ∙ sym (ap (λ q. q.1.calls) e4) in
      let last : t.calls ≡ s5.calls = sym (ap (λ q. q.1.calls) k5) in
      let same : result ≡ r = ground (arith, k5) in
      let answered : answer ≡ compensator p.execution s.calls = rw (← seen) (ground (arith, e3)) in
      (
        last ∙ (kept ∙ (called ∙ ap (λ c. c ++ p.execution ∷ []) seen)),
        subst (ResultOf p (compensator p.execution s.calls)) same (
            subst (λ a. ResultOf p a result) answered
              (compensation_result-ResultOf h p started _ _ answer result (ap (λ q. q.0) e4))),
      )

  note-Entry :
      (event_type : String) (p : CompensationPlan) (entry entry' : Entry) (s t : CoordinatorState L)
      → note h ledger event_type p entry s ≡ (ok entry', t)
      → (t.calls ≡ s.calls) × (entry' ≡ entry)
  unfolding note pure
  note-Entry event_type p entry entry' s t e =
      let (u, s1, e1, k1) = >>=-eq-ok (append_event h ledger event_type p.execution none) _ s t e in
      (
        sym (ap (λ q. q.1.calls) k1) ∙ append_event_calls event_type p.execution none s s1 u e1,
        ground (arith, k1),
      )

  -- What the loop has done with a plan when it goes on.
  abbrev pub Done : CompensationPlan → CoordinatorState L → Entry → CoordinatorState L → Type 0
  Done p s skipped t = (t.calls ≡ s.calls) × (is_target p ≡ false) × (is_left p ≡ false)
  Done p s (uncompensated e) t =
      (t.calls ≡ s.calls) × (is_target p ≡ false) × (is_left p ≡ true) × (e ≡ p.execution)
  Done p s (attempted r) t =
      (t.calls ≡ s.calls ++ p.execution ∷ [])
      × (is_target p ≡ true)
      × (is_left p ≡ false)
      × ((compensator : Compensator) × (p.compensator ≡ some compensator)
          × ResultOf p (compensator p.execution s.calls) r)

  note-Done :
      (event_type : String) (p : CompensationPlan) (entry entry' : Entry) (s t : CoordinatorState L)
      → ((u : CoordinatorState L) → u.calls ≡ s.calls → Done p s entry u)
      → note h ledger event_type p entry s ≡ (ok entry', t)
      → Done p s entry' t
  note-Done event_type p entry entry' s t done e =
      let (kept, same) = note-Entry event_type p entry entry' s t e in
      subst (λ n. Done p s n t) (sym same) (done t kept)

  module _ (p : CompensationPlan) (ran : p.execution.succeeded ≡ true) (s t : CoordinatorState L)
      (entry : Entry) where
    skip-Done :
        (event_type : String)
        → is_compensatable p.effect_type ≡ false
        → is_irreversible p.effect_type ≡ false
        → note h ledger event_type p skipped s ≡ (ok entry, t)
        → Done p s entry t
    skip-Done event_type no_target mild =
        note-Done event_type p skipped entry s t
          (λ u kept. (kept, ground (arith, no_target), ground (arith, no_target, mild)))

    leave-Done :
        (event_type : String)
        → is_target p ≡ false
        → is_left p ≡ true
        → note h ledger event_type p (uncompensated p.execution) s ≡ (ok entry, t)
        → Done p s entry t
    leave-Done event_type no_target left =
        note-Done event_type p (uncompensated p.execution) entry s t
          (λ u kept. (kept, no_target, left, refl))

    with_compensator-Done :
        (compensator : Option Compensator)
        → p.compensator ≡ compensator
        → is_compensatable p.effect_type ≡ true
        → is_irreversible p.effect_type ≡ false
        → with_compensator h ledger p compensator s ≡ (ok entry, t)
        → Done p s entry t
    unfolding attempt pure
    with_compensator-Done none missing can mild e =
        leave-Done "compensation.missing_compensator" (ground (arith, ran, missing, can))
          (ground (arith, ran, missing, can)) e
    with_compensator-Done (some compensator) given can mild e =
        let (r, u, e1, k1) = >>=-eq-ok (attempt_compensation h ledger p compensator) _ s t e in
        let (called, result) = attempt_compensation-ResultOf p compensator s u r e1 in
        let done : Done p s (attempted r) u = (
          called,
          ground (arith, ran, given, can),
          ground (arith, ran, given, can, mild),
          (compensator, given, result),
        ) in
        let same : attempted r ≡ entry = ground (arith, k1) in
        subst (λ n. Done p s n t) same (subst (Done p s (attempted r)) (ap (λ q. q.1) k1) done)

    by_effect-Done :
        (effect : EffectType)
        → p.effect_type ≡ effect
        → by_effect h ledger p effect s ≡ (ok entry, t)
        → Done p s entry t
    by_effect-Done read_only e =
        skip-Done "compensation.skipped_read_only" (ground (arith, e)) (ground (arith, e))
    by_effect-Done idempotent e =
        skip-Done "compensation.skipped_uncompensatable" (ground (arith, e)) (ground (arith, e))
    by_effect-Done irreversible e =
        leave-Done "compensation.irreversible" (ground (arith, ran, e)) (ground (arith, ran, e))
    by_effect-Done reversible e =
        with_compensator-Done p.compensator refl (ground (arith, e)) (ground (arith, e))
    by_effect-Done compensatable e =
        with_compensator-Done p.compensator refl (ground (arith, e)) (ground (arith, e))
    by_effect-Done stageable e =
        with_compensator-Done p.compensator refl (ground (arith, e)) (ground (arith, e))

  -- A plan is skipped, left uncompensated or attempted as its execution, its effect and its
  -- compensator say; an attempt calls the compensator once, and nothing else calls one.
  pub compensate_one-Done :
      (p : CompensationPlan) (s t : CoordinatorState L) (entry : Entry)
      → compensate_one h ledger p s ≡ (ok entry, t)
      → Done p s entry t
  unfolding compensate_one
  compensate_one-Done p s t entry e = elim (Bool-cases p.execution.succeeded) [
    | inl ran ↦ by_effect-Done p ran s t entry p.effect_type refl (ground (arith, e, ran))
    | inr broken ↦
        let same : skipped ≡ entry = ground (arith, e, broken) in
        let last : s ≡ t = ap (λ q. q.1) (rw broken at e) in
        subst (λ n. Done p s n t) same
          (ap (λ u. u.calls) (sym last), ground (arith, broken), ground (arith, broken))
  ]
