-- ===== src/Execution/Runtime/Calls.antt =====
-- A small program logic for the runtime: which methods leave the handlers' invocations and the
-- idempotency records alone, and which may make one invocation once `P` holds.
use agent_actum.Base.{
  ℕ, String, ◌≡◌, refl, subst, ◌∙◌, ◌⊎◌, inl, inr, Bool, true, false, if◌then◌else◌, Option, none,
  some, List, [], ◌∷◌, ◌++◌,
}
use agent_actum.Model.Json.{Value}
use agent_actum.Model.Exec.{Result, ok, Exec, pure, lift, bind_elim, ◌>>=◌}
use agent_actum.Model.Host.{Host}
use agent_actum.Ledger.Models.{AppendArguments}
use agent_actum.Idempotency.Models.{IdempotencyClaim}
use agent_actum.Execution.Models.{ExecutionResult}
use agent_actum.Execution.Runtime.Defs.{
  Call, Runtime, World, Run, draw_from, with_draws, append_event, failure, complete_claim,
}

-- No invocation was made between the worlds, or `call` was made once, and `P` holds of the first.
abbrev pub OneCall :
    {L I : Type 0} → (List Call → I → Type 0) → Call → World L I → World L I → Type 0
OneCall P call w x =
    (x.calls ≡ w.calls) ⊎ (P w.calls w.idempotency × (x.calls ≡ w.calls ++ call ∷ []))

pub OneCall-map :
    {L I : Type 0} (P Q : List Call → I → Type 0) (call : Call) (w x : World L I)
    → (P w.calls w.idempotency → Q w.calls w.idempotency)
    → OneCall P call w x
    → OneCall Q call w x
OneCall-map P Q call w x f (inl e) = inl e
OneCall-map P Q call w x f (inr (p, e)) = inr (f p, e)

-- The same from a world with the same invocations and records.
OneCall-from :
    {L I : Type 0} (P : List Call → I → Type 0) (call : Call) (w u x : World L I)
    → u.calls ≡ w.calls
    → u.idempotency ≡ w.idempotency
    → OneCall P call u x
    → OneCall P call w x
OneCall-from P call w u x c i (inl e) = inl (e ∙ c)
OneCall-from P call w u x c i (inr (p, e)) =
    inr (subst (λ z. P z w.idempotency) c (subst (P u.calls) i p), rw c at e)

-- A test in front of a method that may make the call, and one that must fail.
pub OneCall-then :
    {L I A : Type 0} (P : List Call → I → Type 0) (call : Call) (w : World L I) (b : Bool)
    (x y : Result A × World L I)
    → OneCall P call w x.1
    → y.1.calls ≡ w.calls
    → OneCall (λ c i. (b ≡ true) × P c i) call w (if b then x else y).1
OneCall-then P call w true x y f e =
    OneCall-map P (λ c i. (true ≡ true) × P c i) call w x.1 (λ p. (refl, p)) f
OneCall-then P call w false x y f e = inl e

pub OneCall-else :
    {L I A : Type 0} (P : List Call → I → Type 0) (call : Call) (w : World L I) (b : Bool)
    (x y : Result A × World L I)
    → x.1.calls ≡ w.calls
    → OneCall P call w y.1
    → OneCall (λ c i. (b ≡ false) × P c i) call w (if b then x else y).1
OneCall-else P call w true x y e f = inl e
OneCall-else P call w false x y e f =
    OneCall-map P (λ c i. (false ≡ false) × P c i) call w y.1 (λ p. (refl, p)) f

module _ {L I A : Type 0} where
  -- No invocation, and no access to the idempotency records.
  pub record Quiet (m : Exec (World L I) A) : Type 0 where
    pub calls : (w : World L I) → (m w).1.calls ≡ w.calls
    pub records : (w : World L I) → (m w).1.idempotency ≡ w.idempotency

  -- No invocation.
  pub record Silent (m : Exec (World L I) A) : Type 0 where
    pub calls : (w : World L I) → (m w).1.calls ≡ w.calls

  pub record Guarded (P : List Call → I → Type 0) (call : Call) (m : Exec (World L I) A)
      : Type 0 where
    pub at : (w : World L I) → OneCall P call w (m w).1

  pub Quiet-Silent : {m : Exec (World L I) A} → Quiet m → Silent m
  Quiet-Silent q = record { calls = q.calls }

  pub Guarded-Silent :
      (P : List Call → I → Type 0) (call : Call) {m : Exec (World L I) A}
      → Silent m
      → Guarded P call m
  Guarded-Silent P call q = record { at = λ w. inl (q.calls w) }

  pub Guarded-map :
      (P Q : List Call → I → Type 0) (call : Call) {m : Exec (World L I) A}
      → ((calls : List Call) (i : I) → P calls i → Q calls i)
      → Guarded P call m
      → Guarded Q call m
  Guarded-map P Q call {m} f g = record {
    at = λ w. OneCall-map P Q call w (m w).1 (f w.calls w.idempotency) (g.at w);
  }

  pub Quiet-pure : (a : A) → Quiet (pure a)
  unfolding pure
  Quiet-pure a = record { calls = λ w. refl; records = λ w. refl }

  pub Quiet-lift : (r : Result A) → Quiet (lift r)
  unfolding lift
  Quiet-lift r = record { calls = λ w. refl; records = λ w. refl }

module _ {L I A B : Type 0} where
  pub Quiet-bind :
      (m : Exec (World L I) A) (f : A → Exec (World L I) B)
      → Quiet m
      → ((a : A) → Quiet (f a))
      → Quiet (m >>= f)
  Quiet-bind m f q k = record {
    calls = λ w.
        bind_elim m f w (λ x. x.calls ≡ w.calls) (λ e u r. rw r at (q.calls w))
          (λ a u r. (k a).calls u ∙ (rw r at (q.calls w)));
    records = λ w.
        bind_elim m f w (λ x. x.idempotency ≡ w.idempotency) (λ e u r. rw r at (q.records w))
          (λ a u r. (k a).records u ∙ (rw r at (q.records w)));
  }

  pub Silent-bind :
      (m : Exec (World L I) A) (f : A → Exec (World L I) B)
      → Silent m
      → ((a : A) → Silent (f a))
      → Silent (m >>= f)
  Silent-bind m f q k = record {
    calls = λ w.
        bind_elim m f w (λ x. x.calls ≡ w.calls) (λ e u r. rw r at (q.calls w))
          (λ a u r. (k a).calls u ∙ (rw r at (q.calls w)));
  }

  -- The second method may use what the first returned, and from where.
  pub Guarded-bind :
      (P : List Call → I → Type 0) (call : Call) (m : Exec (World L I) A)
      (f : A → Exec (World L I) B)
      → Quiet m
      → ((a : A) (w u : World L I) → m w ≡ (ok a, u) → Guarded P call (f a))
      → Guarded P call (m >>= f)
  Guarded-bind P call m f q k = record {
    at = λ w.
        bind_elim m f w (OneCall P call w) (λ e u r. inl (rw r at (q.calls w)))
          (λ a u r.
            OneCall-from P call w u (f a u).1 (rw r at (q.calls w)) (rw r at (q.records w))
              ((k a w u r).at u));
  }

module _ {L I : Type 0} (h : Host) (rt : Runtime L I) where
  pub Quiet-draw_from : (answers : ℕ → ℕ) → Quiet (draw_from h rt answers)
  unfolding draw_from
  Quiet-draw_from answers = record { calls = λ w. refl; records = λ w. refl }

  pub Quiet-with_draws : {A : Type 0} (m : Exec ℕ A) → Quiet (with_draws h rt m)
  unfolding with_draws
  Quiet-with_draws m = record { calls = λ w. refl; records = λ w. refl }

  pub Quiet-append_event : (args : AppendArguments) → Quiet (append_event h rt args)
  unfolding append_event
  Quiet-append_event args = record { calls = λ w. refl; records = λ w. refl }

  pub Quiet-failure :
      (run : Run) (code message : String) (output : Value) (verified : Option Bool)
      → Quiet (failure h rt run code message output verified)
  unfolding failure
  Quiet-failure run code message output verified =
      Quiet-bind _ _ (Quiet-draw_from h.clock)
        λ at. Quiet-bind _ _ (Quiet-lift _) λ error. Quiet-lift _

  pub Silent-complete_claim :
      (claim : Option IdempotencyClaim) (result : ExecutionResult)
      → Silent (complete_claim h rt claim result)
  unfolding complete_claim
  Silent-complete_claim none result = record { calls = λ w. refl }
  Silent-complete_claim (some claim) result = record { calls = λ w. refl }
