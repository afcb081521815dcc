-- ===== src/Execution/Runtime/Replay.antt =====
-- The records behind a run with a key, when it has invoked a handler.
use agent_actum.Base.{
  ℕ, suc, String, ◌≡◌, refl, sym, subst, ◌∙◌, ◌⊎◌, inl, inr, Bool, true, false, if◌then◌else◌,
  Option, some,
}
use agent_actum.Model.Json.{Value, JsonObject}
use agent_actum.Model.Exec.{Result, ok, err, Exec, bind_elim, lift, ◌>>=◌}
use agent_actum.Model.Host.{Host}
use agent_actum.Contracts.Models.{ActionIntent}
use agent_actum.Contracts.Registry.{RegisteredTool}
use agent_actum.Idempotency.Models.{IdempotencyClaim}
use agent_actum.Execution.Models.{ExecutionResult}
use agent_actum.Execution.Runtime.Defs.{Handler, Runtime, World, Run}
use agent_actum.Execution.Runtime.Stages.{claimed, claim_key, execute}
use agent_actum.Execution.Runtime.Invocation.{note, check_preconditions}
use agent_actum.Execution.Runtime.Calls.{Quiet-append_event}
use agent_actum.Execution.Runtime.Gates.{Quiet-replay}
use agent_actum.Execution.Runtime.Admission.{execute-receive, run_from}
use agent_actum.Execution.Runtime.Paths.{Rules}
use agent_actum.Execution.Runtime.Paths.Front.{receive-by}
use agent_actum.Execution.Runtime.Records.{Keeps-check_preconditions}

-- No invocation was made, or `Inv` holds of the idempotency records at the end.
abbrev pub Marked : {L I A : Type 0} → (I → Type 0) → World L I → Result A × World L I → Type 0
Marked Inv w x = (x.1.calls ≡ w.calls) ⊎ Inv x.1.idempotency

pub record Marks {L I A : Type 0} (Inv : I → Type 0) (m : Exec (World L I) A) : Type 0 where
  pub at : (w : World L I) → Marked Inv w (m w)

module _ {L I : Type 0} (Inv : I → Type 0) where
  Marked-from :
      {A : Type 0} (w u : World L I) (x : Result A × World L I)
      → u.calls ≡ w.calls
      → Marked Inv u x
      → Marked Inv w x
  Marked-from w u x c (inl e) = inl (e ∙ c)
  Marked-from w u x c (inr v) = inr v

  Marked-bind :
      {A B : Type 0} (m : Exec (World L I) A) (f : A → Exec (World L I) B) (w : World L I)
      → (m w).1.calls ≡ w.calls
      → ((a : A) (u : World L I) → m w ≡ (ok a, u) → Marked Inv u (f a u))
      → Marked Inv w ((m >>= f) w)
  Marked-bind m f w q k =
      bind_elim m f w (λ x. (x.calls ≡ w.calls) ⊎ Inv x.idempotency) (λ e u r. inl (rw r at q))
        (λ a u r. Marked-from w u (f a u) (rw r at q) (k a u r))

  Marked-if :
      {A : Type 0} (w : World L I) (b : Bool) (x y : Result A × World L I)
      → (b ≡ true → Marked Inv w x)
      → Marked Inv w y
      → Marked Inv w (if b then x else y)
  Marked-if w true x y p q = p refl
  Marked-if w false x y p q = q

module _ {L I : Type 0} (h : Host) (rt : Runtime L I) (Inv : I → Type 0) (run : Run) where
  Marked-Rules : Rules h rt run (λ n w x. Marked Inv w x)
  unfolding lift
  Marked-Rules = record {
    steps = record {
      after = λ B n m f q k w. Marked-bind Inv m f w (q.calls w) (λ b u r. k b w u r);
      event = λ n t x d f k w.
          Marked-bind Inv (note h rt run t x d) f w ((Quiet-append_event h rt _).calls w)
            (λ b u r. k b u);
    };
    ends = λ n r b w. inl refl;
  }

module _ {L I : Type 0} (h : Host) (rt : Runtime L I) (Inv : I → Type 0) (key : String)
    (keeps_claim : (k : String) (i : I) → Inv i → Inv (rt.idempotency.claim k i).1)
    (keeps_completion : (k : String) (token : ℕ) (reference : Option String) (result : Value)
        (i : I)
      → Inv i
      → Inv (rt.idempotency.mark_completed k token reference result i).1)
    (starts : (i i' : I) (c : IdempotencyClaim)
      → rt.idempotency.claim key i ≡ (ok c, i')
      → c.acquired ≡ true
      → Inv i') where
  module _ (run : Run) (tool : RegisteredTool Handler) where
    Marks-claim_key : Marks Inv (claim_key h rt run tool (some key))
    unfolding claim_key ◌>>=◌
    Marks-claim_key = record { at = λ w. go w (rt.idempotency.claim key w.idempotency) refl }
      where
        go :
            (w : World L I) (x : Result IdempotencyClaim × I)
            → rt.idempotency.claim key w.idempotency ≡ x
            → Marked Inv w (elim x.0 as (λ _. Result ExecutionResult × World L I) [
              | ok c ↦ claimed h rt run tool c (record w { idempotency = x.1 })
              | err y ↦ (err y, record w { idempotency = x.1 })
            ])
        go w (err y, i') e = inl refl
        go w (ok c, i') e =
            let w' : World L I = record w { idempotency = i' } in
            Marked-if Inv w c.acquired (check_preconditions h rt run (some c) tool w') _
              (λ got. inr (
                (Keeps-check_preconditions h rt Inv keeps_claim keeps_completion run (some c)
                    tool).at
                  w' (starts w.idempotency i' c e got)))
              (inl ((Quiet-replay h rt run c).calls w'))

  -- A run with the key invokes no handler, or leaves records that satisfy the invariant.
  pub execute-Marks :
      (a : ActionIntent) (ctx : JsonObject)
      → a.idempotency_key ≡ some key
      → Marks Inv (execute h rt a ctx)
  execute-Marks a ctx given = record {
    at = λ w. rw (execute-receive h rt a ctx w) (
        let run = run_from h a ctx w.drawn in
        receive-by h rt run (λ n. Marked Inv) (Marked-Rules h rt Inv run) 1
          (λ tool _.
            subst (λ k. (u : World L I) → Marked Inv u (claim_key h rt run tool k u)) (sym given)
              (Marks-claim_key run tool).at)
          (record w { drawn = suc (suc (suc w.drawn)) }));
  }
