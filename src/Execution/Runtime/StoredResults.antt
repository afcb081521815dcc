-- ===== src/Execution/Runtime/StoredResults.antt =====
-- What a run that claimed its key stores under the key.
use agent_actum.Base.{
  String, text_eq, ◌≡◌, refl, sym, ap, ◌∙◌, subst, inl, inr, true, false, Option, some, arith,
}
use agent_actum.Model.Json.{Value}
use agent_actum.Model.Exec.{Result, ok, err, pure, >>=-eq-ok, pure_state, pure-eq-ok}
use agent_actum.Model.Host.{Host}
use agent_actum.Contracts.Registry.{RegisteredTool}
use agent_actum.Idempotency.Models.{IdempotencyRecord, IdempotencyClaim, is_completed}
use agent_actum.Idempotency.Memory.{
  InMemoryIdempotencyBackend, get_record, mark_completed, in_memory_backend,
}
use agent_actum.Idempotency.Memory.Completions.{Completed, Stored, mark_completed-Completed}
use agent_actum.Execution.Models.{ExecutionResult}
use agent_actum.Execution.Runtime.Defs.{Handler, World, Run, discard, complete_claim}
use agent_actum.Execution.Runtime.Invocation.{invoke, check_preconditions}
use agent_actum.Execution.Runtime.AtMostOnce.{MemoryRuntime, MemoryWorld, on_memory}
use agent_actum.Execution.Runtime.Paths.Behind.{ClaimRules, check_preconditions-by}
use agent_actum.Execution.Runtime.Triples.{Triple, Triple-bind, Triple-Steps}

-- The key has a completed record with this result.
abbrev pub HoldsResult : String → Value → InMemoryIdempotencyBackend → Type 0
HoldsResult key v i =
    (r : IdempotencyRecord) × (get_record key i ≡ some r)
    × (is_completed r.status ≡ true)
    × (r.result ≡ v)

-- The key is held by this record, which is in progress.
abbrev pub HeldBy : IdempotencyRecord → InMemoryIdempotencyBackend → Type 0
HeldBy r i = (get_record r.key i ≡ some r) × (is_completed r.status ≡ false)

Stored-HoldsResult :
    (r m : IdempotencyRecord) (v : Value) (i i' : InMemoryIdempotencyBackend)
    → HeldBy r i
    → Stored r.key r.owner_token v i m i'
    → HoldsResult r.key v i'
Stored-HoldsResult r m v i i' (held, pending) (r', held', _, inl (finished, _, _)) =
    let same : r' ≡ r = ground (arith, held, held') in
    let never : true ≡ false = sym finished ∙ (ap (λ q. is_completed q.status) same ∙ pending) in cc
Stored-HoldsResult r m v i i' (held, pending) (r', held', _, inr (_, stored, _, done, value, _)) =
    (m, stored, done, value)

discarded :
    {A L I : Type 0} (x : Result A × I) (w u : World L I)
    → ◌≡◌ {A = Result (Unit {0}) × World L I}
        (discard x.0, record w { idempotency = x.1 })
        (ok tt, u)
    → (a : A) × (x ≡ (ok a, u.idempotency))
discarded (ok a, i) w u e = (a, ap (λ q. (ok a, q.1.idempotency)) e)
discarded (err y, i) w u e = cc

module _ {L : Type 0} (h : Host) (rt : MemoryRuntime L) (run : Run) where
  -- The completion of the claim by which the key is held stores the result.
  complete_claim-HoldsResult :
      (c : IdempotencyClaim) (result : ExecutionResult) (w u : MemoryWorld L)
      → HeldBy c.claimed w.idempotency
      → complete_claim h (on_memory h rt) (some c) result w ≡ (ok tt, u)
      → HoldsResult c.claimed.key (rt.model_dump result) u.idempotency
  unfolding complete_claim in_memory_backend
  complete_claim-HoldsResult c result w u held e =
      let v = rt.model_dump result in
      let reference : Option String = some (h.uuid_text result.execution_id) in
      let (m, done) =
        discarded (mark_completed h c.claimed.key c.claimed.owner_token reference v w.idempotency) w
          u e in
      Stored-HoldsResult c.claimed m v w.idempotency u.idempotency held (
        subst (Completed h c.claimed.key c.claimed.owner_token reference v w.idempotency) done (
          mark_completed-Completed h c.claimed.key c.claimed.owner_token reference v w.idempotency))

  module _ (c : IdempotencyClaim) where
    abbrev StoresResult : ExecutionResult → InMemoryIdempotencyBackend → Type 0
    StoresResult r i = HoldsResult c.claimed.key (rt.model_dump r) i

    stores :
        ClaimRules h
          (on_memory h rt)
          run
          (some c)
          (Triple h (on_memory h rt) run (HeldBy c.claimed) StoresResult)
    unfolding invoke
    stores = record {
      finishing = record {
        steps = Triple-Steps h (on_memory h rt) run (HeldBy c.claimed) StoresResult;
        finish = λ n r b w t a held e.
            let (_, u, first, last) =
              >>=-eq-ok (complete_claim h (on_memory h rt) (some c) r) (λ _. pure r) w t e in
            subst (λ q. StoresResult a q.idempotency) (pure_state r u t a last)
              (subst (λ q. StoresResult q u.idempotency) (pure-eq-ok r u t a last)
                (complete_claim-HoldsResult c r w u held first));
      };
      invoked = λ n tool f k w.
          Triple-bind h (on_memory h rt) run (HeldBy c.claimed) StoresResult
            (invoke h (on_memory h rt) run tool) f w refl (λ b u _. k b u);
    }

    -- From the claim on: a run that returns has stored what it returns.
    pub check_preconditions-stores :
        (tool : RegisteredTool Handler) (w t : MemoryWorld L) (r : ExecutionResult)
        → HeldBy c.claimed w.idempotency
        → check_preconditions h (on_memory h rt) run (some c) tool w ≡ (ok r, t)
        → StoresResult r t.idempotency
    check_preconditions-stores tool w t r held e =
        check_preconditions-by h (on_memory h rt) run (some c)
          (Triple h (on_memory h rt) run (HeldBy c.claimed) StoresResult) stores 0 tool w t r held e
