-- ===== src/Execution/Runtime/Paths.antt =====
-- Every path through a run of `execute`: what a statement about runs needs for each kind of step.
-- The children carry it from the steps to the stages of the run.
pub mod Front
pub mod Behind
pub mod Whole
use agent_actum.Base.{
  ℕ, suc, String, Bool, true, false, ◌≡◌, refl, ap, sym, subst, ◌∙◌, Option, none, some,
  if◌then◌else◌,
}
use agent_actum.Model.Json.{Value, JsonObject}
use agent_actum.Model.Exec.{Result, ok, err, Exec, lift, bind_elim, ◌>>=◌, >>=-eq-ok}
use agent_actum.Model.Host.{Host}
use agent_actum.Contracts.Registry.{RegisteredTool}
use agent_actum.Execution.Models.{
  FailureDetail, failure_detail, ExecutionResult, IsCoherent, execution_result,
  execution_result-IsCoherent,
}
use agent_actum.Execution.Runtime.Defs.{
  Handler, Runtime, World, Run, draw_from, with_draws, failure,
}
use agent_actum.Execution.Runtime.Invocation.{note, invoke}

-- No invocation, and no access to the ledger and to the idempotency records.
pub record Still {L I A : Type 0} (m : Exec (World L I) A) : Type 0 where
  pub calls : (w : World L I) → (m w).1.calls ≡ w.calls
  pub records : (w : World L I) → (m w).1.idempotency ≡ w.idempotency
  pub events : (w : World L I) → (m w).1.ledger ≡ w.ledger

-- A result of this run: it carries the run's identifiers and the time of its start.
pub record OwnResult (run : Run) (r : ExecutionResult) : Type 0 where
  pub same_execution : r.execution_id ≡ run.execution_id
  pub same_transaction : r.transaction_id ≡ run.transaction_id
  pub same_intent : r.intent_id ≡ run.action.intent_id
  pub same_start : r.started_at ≡ run.started_at

-- A result that the run has built itself.
abbrev pub Built : Run → ExecutionResult → Type 0
Built run r = IsCoherent r × OwnResult run r

-- Fields with the run's identifiers.
abbrev pub own_fields :
    Run → Bool → ℕ → Value → Option FailureDetail → Option Bool → ExecutionResult
own_fields run succeeded completed_at output error verified = record {
  execution_id = run.execution_id;
  transaction_id = run.transaction_id;
  intent_id = run.action.intent_id;
  succeeded = succeeded;
  started_at = run.started_at;
  completed_at = completed_at;
  output = output;
  error = error;
  postcondition_verified = verified;
}

module _ {L I : Type 0} (h : Host) (rt : Runtime L I) where
  pub Still-draw_from : (answers : ℕ → ℕ) → Still (draw_from h rt answers)
  unfolding draw_from
  Still-draw_from answers = record { calls = λ w. refl; records = λ w. refl; events = λ w. refl }

  pub Still-with_draws : {A : Type 0} (m : Exec ℕ A) → Still (with_draws h rt m)
  unfolding with_draws
  Still-with_draws m = record { calls = λ w. refl; records = λ w. refl; events = λ w. refl }

pub Still-lift : {L I A : Type 0} (r : Result A) → Still {L = L} {I = I} (lift r)
unfolding lift
Still-lift r = record { calls = λ w. refl; records = λ w. refl; events = λ w. refl }

module _ {L I : Type 0} (h : Host) (rt : Runtime L I) (run : Run) where
  -- What is said of a run from a world on: how it ends, with at most so many events of its own.
  abbrev pub Statement : Type 1
  Statement = ℕ → World L I → Result ExecutionResult × World L I → Type 0

  abbrev pub Everywhere : Statement → ℕ → Exec (World L I) ExecutionResult → Type 0
  Everywhere G n m = (w : World L I) → G n w (m w)

  -- What a statement needs of the steps before the end of the run.
  pub record Steps (G : Statement) : Type 1 where
    pub after :
        (B : Type 0) (n : ℕ) (m : Exec (World L I) B) (f : B → Exec (World L I) ExecutionResult)
        → Still m
        → ((b : B) (w u : World L I) → m w ≡ (ok b, u) → G n u (f b u))
        → Everywhere G n (m >>= f)
    pub event :
        (n : ℕ) (event_type : String) (transaction_id : Option ℕ) (details : Option JsonObject)
        (f : Bool → Exec (World L I) ExecutionResult)
        → ((taken : Bool) → Everywhere G n (f taken))
        → Everywhere G (suc n) (note h rt run event_type transaction_id details >>= f)

  -- The same with the end in front of the claim, where each result is a failure.
  pub record Rules (G : Statement) : Type 1 where
    pub steps : Steps G
    pub ends :
        (n : ℕ) (r : Result ExecutionResult)
        → ((a : ExecutionResult) → r ≡ ok a → Built run a × (a.succeeded ≡ false))
        → Everywhere G n (lift r)

  own :
      (s : Bool) (c : ℕ) (o : Value) (e : Option FailureDetail) (v : Option Bool)
      → OwnResult run (own_fields run s c o e v)
  own s c o e v = record {
    same_execution = refl;
    same_transaction = refl;
    same_intent = refl;
    same_start = refl;
  }

  -- What the model's constructor returns, of fields with this run's identifiers.
  pub execution_result-Built :
      (s : Bool) (c : ℕ) (o : Value) (e : Option FailureDetail) (v : Option Bool)
      (r : ExecutionResult)
      → execution_result h (own_fields run s c o e v) ≡ ok r
      → Built run r × (r.succeeded ≡ s)
  execution_result-Built s c o e v r made =
      let (same, coherent) = execution_result-IsCoherent h _ r made in
      subst (λ a. Built run a × (a.succeeded ≡ s)) (sym same) ((coherent, own s c o e v), refl)

Still-bind :
    {L I A B : Type 0} (m : Exec (World L I) A) (f : A → Exec (World L I) B)
    → Still m
    → ((a : A) → Still (f a))
    → Still (m >>= f)
Still-bind m f q k = record {
  calls = λ w.
      bind_elim m f w (λ x. x.calls ≡ w.calls) (λ e u r. rw r at (q.calls w))
        (λ a u r. (k a).calls u ∙ (rw r at (q.calls w)));
  records = λ w.
      bind_elim m f w (λ x. x.idempotency ≡ w.idempotency) (λ e u r. rw r at (q.records w))
        (λ a u r. (k a).records u ∙ (rw r at (q.records w)));
  events = λ w.
      bind_elim m f w (λ x. x.ledger ≡ w.ledger) (λ e u r. rw r at (q.events w))
        (λ a u r. (k a).events u ∙ (rw r at (q.events w)));
}

module _ {L I : Type 0} (h : Host) (rt : Runtime L I) (run : Run) where
  module _ (code message : String) (output : Value) (verified : Option Bool) where
    abbrev detailed : ℕ → Exec (World L I) ExecutionResult
    detailed at = lift (failure_detail h code message) >>= λ error.
        lift (execution_result h (own_fields run false at output (some error) verified))

    Still-failure : Still (failure h rt run code message output verified)
    unfolding failure
    Still-failure =
        Still-bind _ _ (Still-draw_from h rt h.clock)
          λ at. Still-bind _ _ (Still-lift _) λ error. Still-lift _

    failure-Built :
        (w u : World L I) (r : ExecutionResult)
        → failure h rt run code message output verified w ≡ (ok r, u)
        → Built run r × (r.succeeded ≡ false)
    unfolding failure lift
    failure-Built w u r e =
        let (at, t, _, e') = >>=-eq-ok (draw_from h rt h.clock) detailed w u e in
        let (error, s, _, e'') = >>=-eq-ok (lift (failure_detail h code message)) _ t u e' in
        execution_result-Built h rt run false at output (some error) verified r (ap (λ p. p.0) e'')

    -- A failure, and what follows it.
    pub failure-then :
        {G : Statement h rt run} (n : ℕ) (f : ExecutionResult → Exec (World L I) ExecutionResult)
        → Steps h rt run G
        → ((r : ExecutionResult)
            → Built run r × (r.succeeded ≡ false)
            → Everywhere h rt run G n (f r))
        → Everywhere h rt run G n (failure h rt run code message output verified >>= f)
    failure-then n f steps k =
        steps.after _ n _ f Still-failure λ r w u e. k r (failure-Built w u r e) u

    -- A failure that ends the run.
    pub failure-ends :
        {G : Statement h rt run} (n : ℕ)
        → Rules h rt run G
        → Everywhere h rt run G n (failure h rt run code message output verified)
    unfolding failure
    failure-ends n rules = rules.steps.after _ n _ _ (Still-draw_from h rt h.clock) λ at _ u _.
        rules.steps.after _ n _ _ (Still-lift _)
          (λ error _ v _.
            rules.ends n _ (execution_result-Built h rt run false at output (some error) verified)
              v)
          u

-- What holds of both branches of a test holds of the test.
pub test_branches :
    {A : Type 0} (P : A → Type 0) (b : Bool) (x y : A) → P x → P y → P (if b then x else y)
test_branches P true x y p q = p
test_branches P false x y p q = q
