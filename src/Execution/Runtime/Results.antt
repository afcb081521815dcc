-- ===== src/Execution/Runtime/Results.antt =====
-- The results that `execute` returns.
use agent_actum.Base.{Bool-cases, ◌≡◌, ap, ◌∙◌, sym, subst, ◌⊎◌, inl, inr, Option}
use agent_actum.Model.Json.{Value, JsonObject, dumps}
use agent_actum.Model.Exec.{ok, Exec, lift-eq-ok, pure-eq-ok, ◌>>=◌, >>=-eq-ok}
use agent_actum.Model.Host.{Host}
use agent_actum.Contracts.Models.{ActionIntent}
use agent_actum.Idempotency.Models.{IdempotencyClaim}
use agent_actum.Execution.Models.{ExecutionResult, IsCoherent}
use agent_actum.Execution.Runtime.Defs.{decode_execution_result, Runtime, World, Run}
use agent_actum.Execution.Runtime.Stages.{execute}
use agent_actum.Execution.Runtime.Admission.{run_from, execute-receive}
use agent_actum.Execution.Runtime.Paths.{OwnResult, Statement, Steps}
use agent_actum.Execution.Runtime.Paths.Behind.{ClaimRules}
use agent_actum.Execution.Runtime.Paths.Whole.{WholeRules, whole-by}

-- A result that was stored by an earlier run.
abbrev pub Replayed : {L I : Type 0} → Runtime L I → ExecutionResult → Type 0
Replayed rt r = (stored : Value) × (rt.model_validate_json stored ≡ ok r)

abbrev pub GoodResult : {L I : Type 0} → Runtime L I → Run → ExecutionResult → Type 0
GoodResult rt run r = IsCoherent r × (OwnResult run r ⊎ Replayed rt r)

-- What is decoded was read by pydantic.
pub decoded :
    {L I : Type 0} (rt : Runtime L I) (stored : Value) (r : ExecutionResult)
    → decode_execution_result rt stored ≡ ok r
    → rt.model_validate_json stored ≡ ok r
decoded rt stored r e = elim (Bool-cases (dumps stored)) [
  | inl good ↦ rw good at e
  | inr bad ↦ let never = rw bad at e in cc
]

module _ {L I : Type 0} (h : Host) (rt : Runtime L I) (run : Run)
    (valid : (stored : Value) (r : ExecutionResult)
      → rt.model_validate_json stored ≡ ok r
      → IsCoherent r) where
  -- What a run returns is good; where it starts and what it writes does not matter.
  abbrev Answered : Statement h rt run
  Answered n w x = (t : World L I) (a : ExecutionResult) → x ≡ (ok a, t) → GoodResult rt run a

  Answered-bind :
      {B : Type 0} (m : Exec (World L I) B) (f : B → Exec (World L I) ExecutionResult)
      (w : World L I)
      → ((b : B) (u : World L I) → m w ≡ (ok b, u) → Answered 0 u (f b u))
      → Answered 0 w ((m >>= f) w)
  Answered-bind m f w k t a e = let (b, u, first, e') = >>=-eq-ok m f w t e in k b u first t a e'

  Answered-Steps : Steps h rt run Answered
  Answered-Steps = record {
    after = λ B n m f q k w. Answered-bind m f w (λ b u. k b w u);
    event = λ n y x d f k w. Answered-bind _ f w (λ b u _. k b u);
  }

  Answered-ClaimRules : (claim : Option IdempotencyClaim) → ClaimRules h rt run claim Answered
  Answered-ClaimRules claim = record {
    finishing = record {
      steps = Answered-Steps;
      finish = λ n r b w.
          Answered-bind _ _ w
            λ _ u _ t a e. subst (GoodResult rt run) (pure-eq-ok r u t a e) (b.0, inl b.1);
    };
    invoked = λ n tool f k w. Answered-bind _ f w (λ b u _. k b u);
  }

  Answered-WholeRules : WholeRules h rt run Answered
  Answered-WholeRules = record {
    rules = record {
      steps = Answered-Steps;
      ends = λ n r b w t a e. let ((good, own), _) = b a (lift-eq-ok r w t a e) in (good, inl own);
    };
    claim_rules = Answered-ClaimRules;
    reads = λ n stored w t a e.
        let read = decoded rt stored a (ap (λ p. p.0) e) in
        (valid stored a read, inr (stored, read));
    claims = λ n key f k w. Answered-bind _ f w (λ b u _. k b u);
  }

-- A result that `execute` returns is coherent, where pydantic reads back coherent results only; and
-- it is this run's own, with the run's identifiers and the time of its start, or one that pydantic
-- has read from a stored value.
pub execute-GoodResult :
    {L I : Type 0} (h : Host) (rt : Runtime L I) (action : ActionIntent) (context : JsonObject)
    (w w' : World L I) (r : ExecutionResult)
    → ((stored : Value) (s : ExecutionResult) → rt.model_validate_json stored ≡ ok s → IsCoherent s)
    → execute h rt action context w ≡ (ok r, w')
    → GoodResult rt (run_from h action context w.drawn) r
execute-GoodResult h rt action context w w' r valid e =
    let run = run_from h action context w.drawn in
    whole-by h rt run (Answered h rt run valid) (Answered-WholeRules h rt run valid) _ w' r
      (sym (execute-receive h rt action context w) ∙ e)
