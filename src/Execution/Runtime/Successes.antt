-- ===== src/Execution/Runtime/Successes.antt =====
-- Statements about a run that returns a result with `succeeded`, by the invocations before and
-- behind it.
pub mod Outputs
pub mod Whole
use agent_actum.Base.{
  ℕ, String, ◌≡◌, refl, sym, ap, ◌∙◌, subst, ◌⊎◌, inl, inr, Bool, true, false, Option, none, some,
  List, [], ◌∷◌, ◌++◌, Bool-cases, Option-cases, arith, ◌&&◌, if◌then◌else◌,
}
use agent_actum.Model.Json.{Value, JsonObject, dumps}
use agent_actum.Model.Exec.{
  Result, ok, err, Exec, pure, lift, ◌>>=◌, ◌>>◌, >>=-eq-ok, lift-eq-ok, pure-eq-ok, pure_state,
  Result-cases,
}
use agent_actum.Model.Host.{Host}
use agent_actum.Contracts.Models.{ActionIntent, ToolContract}
use agent_actum.Contracts.Registry.{RegisteredTool, get}
use agent_actum.Idempotency.Models.{IdempotencyClaim, is_completed, is_set}
use agent_actum.Execution.Models.{ExecutionResult, execution_result, execution_result-IsCoherent}
use agent_actum.Execution.Schema.{validate_against_schema, json_or_raise}
use agent_actum.Execution.Runtime.Defs.{
  Call, Handler, Runtime, World, Run, complete_claim, checks_pass, decode_execution_result,
}
use agent_actum.Execution.Runtime.Invocation.{
  note, invoke, succeed, verify_postconditions, verify_output, handled, run_handler, started, start,
  check_preconditions,
}
use agent_actum.Execution.Runtime.Stages.{replay, claimed, claim_from_backend, claim_key, execute}
use agent_actum.Execution.Runtime.Admission.{run_from, execute-receive}
use agent_actum.Execution.Runtime.Calls.{Quiet-append_event, Silent-complete_claim}
use agent_actum.Execution.Runtime.Paths.{
  Still-draw_from, Still-lift, Built, Statement, Everywhere, Steps, Rules, failure-ends,
  test_branches,
}
use agent_actum.Execution.Runtime.Paths.Front.{receive-by}
use agent_actum.Execution.Runtime.Paths.Behind.{
  FailRules, reject_output-by, handler_failed-by, fail_claimed-by, precondition_failed-by,
}
use agent_actum.Execution.Runtime.Results.{Replayed, decoded}

-- What holds of a successful result and of the invocations before and behind it.
abbrev pub OnSuccess : Type 1
OnSuccess = List Call → List Call → ExecutionResult → Type 0

module _ {L I : Type 0} (h : Host) (rt : Runtime L I) (run : Run) where
  abbrev pub Succeeds : OnSuccess → Statement h rt run
  Succeeds P n w x =
      (t : World L I) (a : ExecutionResult)
      → x ≡ (ok a, t)
      → a.succeeded ≡ true
      → P w.calls t.calls a

  module _ (P : OnSuccess) where
    -- A step that makes no invocation, and what follows it.
    pub Succeeds-bind :
        {B : Type 0} (m : Exec (World L I) B) (f : B → Exec (World L I) ExecutionResult)
        (w : World L I)
        → (m w).1.calls ≡ w.calls
        → ((b : B) (u : World L I) → m w ≡ (ok b, u) → Succeeds P 0 u (f b u))
        → Succeeds P 0 w ((m >>= f) w)
    Succeeds-bind m f w same k t a e s =
        let (b, u, first, e') = >>=-eq-ok m f w t e in
        let calls : u.calls ≡ w.calls = ap (λ q. q.1.calls) (sym first) ∙ same in
        subst (λ c. P c t.calls a) calls (k b u first t a e' s)

    pub Succeeds-Steps : Steps h rt run (Succeeds P)
    Succeeds-Steps = record {
      after = λ B n m f q k w. Succeeds-bind m f w (q.calls w) (λ b u. k b w u);
      event = λ n y x d f k w.
          Succeeds-bind (note h rt run y x d) f w ((Quiet-append_event h rt _).calls w)
            (λ b u _. k b u);
    }

    pub finished :
        (claim : Option IdempotencyClaim) (r : ExecutionResult) (w t : World L I)
        (a : ExecutionResult)
        → (complete_claim h rt claim r >> pure r) w ≡ (ok a, t)
        → (r ≡ a) × (t.calls ≡ w.calls)
    finished claim r w t a e =
        let (_, u, first, last) = >>=-eq-ok (complete_claim h rt claim r) (λ _. pure r) w t e in
        (
          pure-eq-ok r u t a last,
          ap (λ x. x.calls) (sym (pure_state r u t a last))
              ∙ (ap (λ q. q.1.calls) (sym first) ∙ (Silent-complete_claim h rt claim r).calls w),
        )

    pub Succeeds-FailRules :
        (claim : Option IdempotencyClaim) → FailRules h rt run claim (Succeeds P)
    Succeeds-FailRules claim = record {
      steps = Succeeds-Steps;
      finish = λ n r b w t a e s.
          let same = (finished claim r w t a e).0 in
          let never : true ≡ false = ground (arith, same, s, b.1) in absurd (cc never);
    }

    pub Succeeds-Rules : Rules h rt run (Succeeds P)
    Succeeds-Rules = record {
      steps = Succeeds-Steps;
      ends = λ n r b w t a e s.
          let failed = (b a (lift-eq-ok r w t a e)).1 in
          let never : true ≡ false = sym s ∙ failed in absurd (cc never);
    }
