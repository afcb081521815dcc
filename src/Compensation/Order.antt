-- ===== src/Compensation/Order.antt =====
-- A whole run of the coordinator: which compensators it calls, in which order, and what it reports.
use agent_actum.Base.{
  String, none, ◌≡◌, refl, ap, subst, ◌∙◌, sym, Option, some, List, [], ◌∷◌, ◌++◌, map, reverse,
  select, arith,
}
use mathlib.Core.List.{append_assoc, append-nil}
use agent_actum.Model.Exec.{ok, pure, >>=-eq-ok}
use agent_actum.Model.Host.{Host}
use agent_actum.Ledger.Models.{Ledger}
use agent_actum.Model.Json.{JsonObject}
use agent_actum.Execution.Models.{ExecutionResult}
use agent_actum.Compensation.Models.{
  CompensationResult, CompensationPlan, Compensator, CompensationSummary,
}
use agent_actum.Compensation.Coordinator.{
  CoordinatorState, Entry, skipped, uncompensated, attempted, compensate_one, compensate_each,
  list_entry, summary_of, compensate, failed_id, note_failed, summarize_status, append_event,
}
use agent_actum.Compensation.Attempts.{is_target, is_left, ResultOf, Done, compensate_one-Done}

abbrev pub executions : List CompensationPlan → List ExecutionResult
executions plans = map (λ p. p.execution) plans

-- The results are those of the plans, one for each, in their order; `calls` were the compensations
-- before the first.
abbrev pub Attempted :
    List ExecutionResult → List CompensationPlan → List CompensationResult → Type 0
Attempted calls [] [] = Unit
Attempted calls [] (r ∷ rs) = ⊥
Attempted calls (p ∷ ps) [] = ⊥
Attempted calls (p ∷ ps) (r ∷ rs) =
    ((compensator : Compensator) × (p.compensator ≡ some compensator)
      × ResultOf p (compensator p.execution calls) r)
    × Attempted (calls ++ p.execution ∷ []) ps rs

-- What a run over the plans has done, in this order.
abbrev pub Compensated :
    List CompensationPlan
    → List ExecutionResult
    → List ExecutionResult
    → List CompensationResult × List ExecutionResult
    → Type 0
Compensated plans before after sorted =
    (after ≡ before ++ executions (select is_target plans))
    × Attempted before (select is_target plans) sorted.0
    × (sorted.1 ≡ executions (select is_left plans))

Compensated-cons :
    (p : CompensationPlan) (ps : List CompensationPlan) (entry : Entry) {L : Type 0} (h : Host)
    (ledger : Option (Ledger L)) (s u : CoordinatorState L) (after : List ExecutionResult)
    (sorted : List CompensationResult × List ExecutionResult)
    → Done h ledger p s entry u
    → Compensated ps u.calls after sorted
    → Compensated (p ∷ ps) s.calls after (list_entry entry sorted)
Compensated-cons p ps skipped h ledger s u after sorted (kept, no_target, no_left) c =
    rw (no_target, no_left) (subst (λ b. Compensated ps b after sorted) kept c)
Compensated-cons p ps (uncompensated e) h ledger s u after (results, left)
      (kept, no_target, kept_back, same) (calls, done, rest) =
    rw (no_target, kept_back)
      (
        calls ∙ ap (λ b. b ++ executions (select is_target ps)) kept,
        subst (λ b. Attempted b (select is_target ps) results) kept done,
        rw (same, rest) refl,
      )
Compensated-cons p ps (attempted r) h ledger s u after (results, left)
      (called, target, no_left, result) (calls, done, rest) =
    rw (target, no_left)
      (
        calls
            ∙ (ap (λ b. b ++ executions (select is_target ps)) called
                ∙ append_assoc s.calls (p.execution ∷ []) _),
        (result, subst (λ b. Attempted b (select is_target ps) results) called done),
        rest,
      )

-- What a run over the plans, in this order, has done and reports.
abbrev pub Reported :
    {L : Type 0}
    → List CompensationPlan
    → CoordinatorState L
    → CoordinatorState L
    → CompensationSummary
    → Type 0
Reported plans s t summary =
    Compensated plans s.calls t.calls (summary.results, summary.uncompensated_executions)
    × (summary.status ≡ summarize_status summary.results summary.uncompensated_executions)

module _ {L : Type 0} (h : Host) (ledger : Option (Ledger L)) where
  compensate_each-Compensated :
      (plans : List CompensationPlan) (s t : CoordinatorState L)
      (sorted : List CompensationResult × List ExecutionResult)
      → compensate_each h ledger plans s ≡ (ok sorted, t)
      → Compensated plans s.calls t.calls sorted
  unfolding compensate_each pure
  compensate_each-Compensated [] s t sorted e =
      let same : ([], []) ≡ sorted = ground (arith, e) in
      subst (Compensated [] s.calls t.calls) same
        (ap (λ q. q.1.calls) (sym e) ∙ sym (append-nil s.calls), tt, refl)
  compensate_each-Compensated (p ∷ ps) s t sorted e =
      let (entry, u, first, k) = >>=-eq-ok (compensate_one h ledger p) _ s t e in
      let (others, v, rest, done) =
        >>=-eq-ok (compensate_each h ledger ps) (λ r. pure (list_entry entry r)) u t k in
      let later =
        subst (λ w. Compensated ps u.calls w.calls others) (ap (λ q. q.1) done)
          (compensate_each-Compensated ps u v others rest) in
      let same : list_entry entry others ≡ sorted = ground (arith, done) in
      subst (Compensated (p ∷ ps) s.calls t.calls) same (
        Compensated-cons p ps entry h ledger s u t.calls others
          (compensate_one-Done h ledger p s u entry first) later)

  note_failed_calls :
      (event_type : String) (failed : Option ExecutionResult) (details : JsonObject)
      (s t : CoordinatorState L) (u : Unit {0})
      → note_failed h ledger event_type failed details s ≡ (ok u, t)
      → t.calls ≡ s.calls
  unfolding note_failed append_event pure
  note_failed_calls event_type none details s t u e = sym (ap (λ q. q.1.calls) e)
  note_failed_calls event_type (some x) details s t u e = sym (ap (λ q. q.1.calls) e)

  -- If a run returns, it has called the compensators of the completed compensatable effects that
  -- have one, each once and in reverse order of the plans, and no other; its results are those of
  -- these calls, one for each, a success exactly if the compensator returned; the completed effects
  -- that are irreversible, or compensatable without a compensator, are listed as uncompensated, in
  -- the same order, and no others; and the status is the summary of both lists.
  pub compensate-Compensated :
      (plans : List CompensationPlan) (failed : Option ExecutionResult) (s t : CoordinatorState L)
      (summary : CompensationSummary)
      → compensate h ledger plans failed s ≡ (ok summary, t)
      → Reported (reverse plans) s t summary
  unfolding compensate pure
  compensate-Compensated plans failed s t summary e =
      let (u1, s1, e1, k1) =
        >>=-eq-ok (note_failed h ledger "compensation.started" failed (failed_id h ledger failed)) _
          s t e in
      let (sorted, s2, e2, k2) = >>=-eq-ok (compensate_each h ledger (reverse plans)) _ s1 t k1 in
      let (u3, s3, e3, k3) =
        >>=-eq-ok (note_failed h ledger "compensation.completed" failed _) _ s2 t k2 in
      let begun = note_failed_calls "compensation.started" failed _ s s1 u1 e1 in
      let ended : t.calls ≡ s2.calls =
        sym (ap (λ q. q.1.calls) k3)
        ∙ note_failed_calls "compensation.completed" failed _ s2 s3 u3 e3 in
      let done = compensate_each-Compensated (reverse plans) s1 s2 sorted e2 in
      let same : summary_of sorted ≡ summary = ground (arith, k3) in
      let all_done : Compensated (reverse plans) s.calls t.calls sorted =
        subst (λ b. Compensated (reverse plans) b t.calls sorted) begun
          (subst (λ a. Compensated (reverse plans) s1.calls a sorted) (sym ended) done) in
      subst (Reported (reverse plans) s t) same (all_done, refl)
