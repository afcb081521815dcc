-- ===== src/Compensation/Refusals.antt =====
-- What becomes of a run in which a compensator returns what pydantic refuses.
use agent_actum.Base.{suc, ◌≡◌, refl, ◌∙◌, true, false, none, some, List, [], ◌∷◌, ◌++◌, arith}
use agent_actum.Model.Enums.{
  EffectType, read_only, idempotent, irreversible, reversible, compensatable, stageable,
}
use agent_actum.Model.Json.{Value}
use agent_actum.Model.Exec.{ok, err, validation, bind_ok, bind_err}
use agent_actum.Model.Host.{Host}
use agent_actum.Ledger.Models.{emit}
use agent_actum.Compensation.Models.{CompensationPlan, Compensator, is_compensatable}
use agent_actum.Compensation.Coordinator.{
  CoordinatorState, append_event, now, call, conclude, attempt_compensation, attempt,
  compensate_one, compensate_each, by_effect,
}
use agent_actum.Compensation.Attempts.{is_target}

module _ {L : Type 0} (h : Host) (p : CompensationPlan) (compensator : Compensator) (output : Value)
    (s : CoordinatorState L) where
  -- The state behind the call of the compensator and the draws for its result.
  abbrev pub after_refusal : CoordinatorState L
  after_refusal = record s { calls = s.calls ++ p.execution ∷ []; drawn = suc (suc (suc s.drawn)) }

  attempt_refused :
      compensator p.execution s.calls ≡ ok output
      → h.json output ≡ false
      → attempt h none p compensator s ≡ (err (validation "output"), after_refusal)
  unfolding attempt attempt_compensation now append_event emit call conclude
  attempt_refused answered refused =
      let begun : CoordinatorState L = record s { drawn = suc s.drawn } in
      let called : CoordinatorState L = record begun { calls = s.calls ++ p.execution ∷ [] } in
      let answer : call h none compensator p.execution begun ≡ (ok (ok output), called) =
        rw answered refl in
      let verdict : conclude h none p (h.utc_now s.drawn) (ok output) called
          ≡ (err (validation "output"), after_refusal) =
        rw refused refl in
      bind_err (attempt_compensation h none p compensator) _ s after_refusal (validation "output") (
        bind_ok (now h none) _ s begun _ refl
        ∙ (bind_ok (append_event h none "compensation.attempted" p.execution none) _ begun begun tt
              refl
            ∙ (bind_ok (call h none compensator p.execution) _ begun called (ok output) answer
                ∙ bind_err (conclude h none p (h.utc_now s.drawn) (ok output)) _ called
                    after_refusal (validation "output") verdict)))

  by_effect-attempt :
      (effect : EffectType)
      → is_compensatable effect ≡ true
      → p.compensator ≡ some compensator
      → by_effect {L = L} h none p effect s ≡ attempt h none p compensator s
  by_effect-attempt read_only can given = cc
  by_effect-attempt idempotent can given = cc
  by_effect-attempt irreversible can given = cc
  by_effect-attempt reversible can given = rw given refl
  by_effect-attempt compensatable can given = rw given refl
  by_effect-attempt stageable can given = rw given refl

  -- A compensator that returns what is no `JsonValue` ends the run with pydantic's error, behind the
  -- effect of the compensation: its result is lost, and the plans behind it are not attempted.
  pub compensate_each_refused :
      (rest : List CompensationPlan)
      → is_target p ≡ true
      → p.compensator ≡ some compensator
      → compensator p.execution s.calls ≡ ok output
      → h.json output ≡ false
      → compensate_each h none (p ∷ rest) s ≡ (err (validation "output"), after_refusal)
  unfolding compensate_each compensate_one
  compensate_each_refused rest target given answered refused =
      let ran : p.execution.succeeded ≡ true = ground (arith, target) in
      let can : is_compensatable p.effect_type ≡ true = ground (arith, target) in
      let one : compensate_one h none p s ≡ (err (validation "output"), after_refusal) =
        simp (ran, by_effect-attempt p.effect_type can given, attempt_refused answered refused) in
      bind_err (compensate_one h none p) _ s after_refusal (validation "output") one
