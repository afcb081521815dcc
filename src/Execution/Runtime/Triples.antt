-- ===== src/Execution/Runtime/Triples.antt =====
-- Statements about a run by the idempotency records before it, and by its result and the records
-- after it, where it returns one.
use agent_actum.Base.{◌≡◌, ap, ◌∙◌, sym, subst}
use agent_actum.Model.Exec.{ok, Exec, ◌>>=◌, >>=-eq-ok}
use agent_actum.Model.Host.{Host}
use agent_actum.Execution.Models.{ExecutionResult}
use agent_actum.Execution.Runtime.Defs.{Runtime, World, Run}
use agent_actum.Execution.Runtime.Invocation.{note}
use agent_actum.Execution.Runtime.Calls.{Quiet-append_event}
use agent_actum.Execution.Runtime.Paths.{Statement, Steps}

module _ {L I : Type 0} (h : Host) (rt : Runtime L I) (run : Run) (Pre : I → Type 0)
    (Post : ExecutionResult → I → Type 0) where
  abbrev pub Triple : Statement h rt run
  Triple n w x =
      (t : World L I) (a : ExecutionResult)
      → Pre w.idempotency
      → x ≡ (ok a, t)
      → Post a t.idempotency

  -- A step that leaves the records alone, and what follows it.
  pub Triple-bind :
      {B : Type 0} (m : Exec (World L I) B) (f : B → Exec (World L I) ExecutionResult)
      (w : World L I)
      → (m w).1.idempotency ≡ w.idempotency
      → ((b : B) (u : World L I) → m w ≡ (ok b, u) → Triple 0 u (f b u))
      → Triple 0 w ((m >>= f) w)
  Triple-bind m f w same k t a p e =
      let (b, u, first, e') = >>=-eq-ok m f w t e in
      let same_records : u.idempotency ≡ w.idempotency =
        ap (λ q. q.1.idempotency) (sym first) ∙ same in
      k b u first t a (subst Pre (sym same_records) p) e'

  pub Triple-Steps : Steps h rt run Triple
  Triple-Steps = record {
    after = λ B n m f q k w. Triple-bind m f w (q.records w) (λ b u. k b w u);
    event = λ n y x d f k w.
        Triple-bind (note h rt run y x d) f w ((Quiet-append_event h rt _).records w)
          (λ b u _. k b u);
  }
