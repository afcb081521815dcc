-- ===== src/Execution/Runtime/StoredRuns.antt =====
-- A whole run with a free key over the in-memory backend.
use agent_actum.Base.{
  ℕ, String, text_eq, ◌≡◌, sym, ap, ◌∙◌, subst, ◌⊎◌, inl, inr, true, none, some, arith,
}
use agent_actum.Model.Json.{JsonObject}
use agent_actum.Model.Exec.{ok, lift, >>=-eq-ok, Result-cases}
use agent_actum.Model.Host.{Host, short_text}
use agent_actum.Contracts.Models.{ActionIntent}
use agent_actum.Contracts.Registry.{RegisteredTool}
use agent_actum.Idempotency.Models.{
  IdempotencyRecord, IdempotencyClaim, is_completed, in_progress, validate_completion,
}
use agent_actum.Idempotency.Memory.{
  InMemoryIdempotencyBackend, get_record, claim, new_record, in_memory_backend,
}
use agent_actum.Idempotency.Memory.Claims.{Claimed, claim-Claimed}
use agent_actum.Execution.Models.{ExecutionResult}
use agent_actum.Execution.Runtime.Defs.{Handler, Run}
use agent_actum.Execution.Runtime.Stages.{claimed, claim_key, claim_from_backend, execute}
use agent_actum.Execution.Runtime.Admission.{execute-receive, run_from}
use agent_actum.Execution.Runtime.AtMostOnce.{MemoryRuntime, MemoryWorld, on_memory}
use agent_actum.Execution.Runtime.Paths.{Statement, Rules, Everywhere}
use agent_actum.Execution.Runtime.Paths.Front.{receive-by}
use agent_actum.Execution.Runtime.Triples.{Triple, Triple-Steps}
use agent_actum.Execution.Runtime.StoredResults.{HoldsResult, HeldBy, check_preconditions-stores}

acquires :
    (key : String) (c : IdempotencyClaim) (s s' : InMemoryIdempotencyBackend)
    → get_record key s ≡ none
    → Claimed key s c s'
    → (c.acquired ≡ true) × (get_record key s' ≡ some c.claimed) × (c.claimed.status ≡ in_progress)
acquires key c s s' absent (inl (got, _, held, status)) = (got, held, status)
acquires key c s s' absent (inr (_, held, _)) = cc

module _ (h : Host) (key : String) (accepted : h.accept short_text key ≡ some key) where
  new_record-key : (n : ℕ) (r : IdempotencyRecord) → new_record h key n ≡ ok r → r.key ≡ key
  unfolding validate_completion
  new_record-key n r e = let e' = rw (accepted, new_record) at e in ground arith

  -- A claim that acquires the key is held by its record.
  acquired-HeldBy :
      (c : IdempotencyClaim) (s s' : InMemoryIdempotencyBackend)
      → claim h key s ≡ (ok c, s')
      → get_record key s ≡ none
      → HeldBy c.claimed s' × (c.claimed.key ≡ key) × (c.acquired ≡ true)
  unfolding claim get_record
  acquired-HeldBy c s s' e absent = elim (Result-cases (new_record h key s.drawn)) [
    | inr (x, refused) ↦ let e' = rw (absent, refused, claim) at e in cc
    | inl (r, made) ↦
        let e' = rw (absent, made, claim) at e in
        let same_record : r ≡ c.claimed = ground arith in
        let same_key : c.claimed.key ≡ key =
          ap (λ (q : IdempotencyRecord). q.key) (sym same_record) ∙ new_record-key s.drawn r made in
        let (got, held, status) = acquires key c s s' absent (claim-Claimed h key s c s' e) in
        (
          (
            subst (λ j. get_record j s' ≡ some c.claimed) (sym same_key) held,
            ap is_completed status,
          ),
          same_key,
          got,
        )
  ]

module _ {L : Type 0} (h : Host) (key : String) where
  -- A claim of the backend under a key, in a run.
  backend_claim :
      (rt : MemoryRuntime L) (run : Run) (w u : MemoryWorld L) (c : IdempotencyClaim)
      → claim_from_backend h (on_memory h rt) run key w ≡ (ok c, u)
      → claim h key w.idempotency ≡ (ok c, u.idempotency)
  unfolding in_memory_backend
  backend_claim rt run w u c e = ap (λ q. (q.0, q.1.idempotency)) e

  module _ (accepted : h.accept short_text key ≡ some key) (rt : MemoryRuntime L) (run : Run) where
    -- The key is still free, or the run has stored what it returned.
    abbrev StoredOrFree : ExecutionResult → InMemoryIdempotencyBackend → Type 0
    StoredOrFree r i = (get_record key i ≡ none) ⊎ HoldsResult key (rt.model_dump r) i

    abbrev Stores : Statement h (on_memory h rt) run
    Stores = Triple h (on_memory h rt) run (λ i. get_record key i ≡ none) StoredOrFree

    Stores-Rules : Rules h (on_memory h rt) run Stores
    unfolding lift
    Stores-Rules = record {
      steps = Triple-Steps h (on_memory h rt) run (λ i. get_record key i ≡ none) StoredOrFree;
      ends = λ n r b w t a absent e.
          inl (subst (λ i. get_record key i ≡ none) (ap (λ q. q.1.idempotency) e) absent);
    }

    claim_key-Stores :
        (tool : RegisteredTool Handler)
        → Everywhere h
            (on_memory h rt)
            run
            Stores
            2
            (claim_key h (on_memory h rt) run tool (some key))
    unfolding claim_key
    claim_key-Stores tool w t a absent e =
        let (c, u, first, rest) =
          >>=-eq-ok (claim_from_backend h (on_memory h rt) run key)
            (claimed h (on_memory h rt) run tool) w t e in
        let (held, same_key, got) =
          acquired-HeldBy h key accepted c w.idempotency u.idempotency
            (backend_claim rt run w u c first) absent in
        inr (
          subst (λ k. HoldsResult k (rt.model_dump a) t.idempotency) same_key
            (check_preconditions-stores h rt run c tool u t a held (rw got at rest)))

  -- A run with a free key that returns leaves the key free or has stored what it returned.
  pub execute-stores :
      (accepted : h.accept short_text key ≡ some key) (rt : MemoryRuntime L) (a : ActionIntent)
      (ctx : JsonObject) (w t : MemoryWorld L) (r : ExecutionResult)
      → a.idempotency_key ≡ some key
      → get_record key w.idempotency ≡ none
      → execute h (on_memory h rt) a ctx w ≡ (ok r, t)
      → (get_record key t.idempotency ≡ none) ⊎ HoldsResult key (rt.model_dump r) t.idempotency
  execute-stores accepted rt a ctx w t r given absent e =
      let run = run_from h a ctx w.drawn in
      receive-by h (on_memory h rt) run (Stores accepted rt run) (Stores-Rules accepted rt run) 1
        (λ tool _.
          subst
            (λ k.
              Everywhere h (on_memory h rt) run (Stores accepted rt run) 2
                (claim_key h (on_memory h rt) run tool k))
            (sym given) (claim_key-Stores accepted rt run tool))
        _ t r absent (sym (execute-receive h (on_memory h rt) a ctx w) ∙ e)
