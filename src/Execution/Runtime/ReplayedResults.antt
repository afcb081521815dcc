-- ===== src/Execution/Runtime/ReplayedResults.antt =====
-- Runs with a key after one that stored its result.
use agent_actum.Base.{
  String, text_eq, ◌≡◌, ◌≢◌, refl, sym, ap, ◌∙◌, subst, ◌⊎◌, inl, inr, true, false, none, some,
  arith,
}
use agent_actum.Model.Json.{JsonObject}
use agent_actum.Model.Exec.{Result, ok, err, ◌>>=◌, bind_ok, lift-eq-ok}
use agent_actum.Model.Host.{Host, short_text}
use agent_actum.Contracts.Models.{ActionIntent}
use agent_actum.Contracts.Registry.{RegisteredTool}
use agent_actum.Idempotency.Models.{IdempotencyRecord, IdempotencyClaim, is_completed, is_set}
use agent_actum.Idempotency.Memory.{InMemoryIdempotencyBackend, get_record, in_memory_backend}
use agent_actum.Idempotency.Memory.Runs.{Step, claims, completes, Step-keeps, claim_held}
use agent_actum.Execution.Models.{ExecutionResult}
use agent_actum.Execution.Runtime.Defs.{decode_execution_result, Handler, Run, append_event}
use agent_actum.Execution.Runtime.Stages.{claimed, claim_key, claim_from_backend, replay, execute}
use agent_actum.Execution.Runtime.Admission.{execute-receive, run_from}
use agent_actum.Execution.Runtime.AtMostOnce.{
  MemoryRuntime, MemoryWorld, on_memory, Runs, start, then_run,
}
use agent_actum.Execution.Runtime.Paths.{Rules, Everywhere}
use agent_actum.Execution.Runtime.Paths.Front.{receive-by}
use agent_actum.Execution.Runtime.Records.{execute-Keeps}
use agent_actum.Execution.Runtime.Triples.{Triple, Triple-Steps}
use agent_actum.Execution.Runtime.StoredRuns.{execute-stores}

module _ {L : Type 0} (h : Host) (key : String) where
  module _ (rec : IdempotencyRecord) (done : is_completed rec.status ≡ true)
      (set : is_set rec.result ≡ true) (rt : MemoryRuntime L) (r : ExecutionResult)
      (read : decode_execution_result rt rec.result ≡ ok r) where
    abbrev Held : InMemoryIdempotencyBackend → Type 0
    Held i = get_record key i ≡ some rec

    replay-eq :
        (run : Run) (w : MemoryWorld L) (c : IdempotencyClaim)
        → c.claimed ≡ rec
        → (replay h (on_memory h rt) run c w).0 ≡ ok r
    unfolding replay append_event ◌>>=◌
    replay-eq run w c same = rw (same, done, set) read

    -- A claim that is reached is answered with the stored result.
    claim_key-eq :
        (run : Run) (tool : RegisteredTool Handler) (w : MemoryWorld L)
        → Held w.idempotency
        → (claim_key h (on_memory h rt) run tool (some key) w).0 ≡ ok r
    unfolding claim_key in_memory_backend
    claim_key-eq run tool w held =
        let c : IdempotencyClaim = record { claimed = rec; acquired = false } in
        let first : claim_from_backend h (on_memory h rt) run key w ≡ (ok c, w) =
          ap (λ q. (q.0, record w { idempotency = q.1 }))
            (claim_held h key w.idempotency rec held) in
        ap (λ q. q.0)
          (bind_ok (claim_from_backend h (on_memory h rt) run key)
            (claimed h (on_memory h rt) run tool) w w c first)
        ∙ replay-eq run w c refl

    -- The stored result, or a failure of the run's own.
    abbrev pub ReplayOrFailure : ExecutionResult → Type 0
    ReplayOrFailure a = (a ≡ r) ⊎ (a.succeeded ≡ false)

    Replays-Rules :
        (run : Run)
        → Rules h
            (on_memory h rt)
            run
            (Triple h (on_memory h rt) run Held (λ a i. ReplayOrFailure a))
    Replays-Rules run = record {
      steps = Triple-Steps h (on_memory h rt) run Held (λ a i. ReplayOrFailure a);
      ends = λ n x b w t a held e. inr (b a (lift-eq-ok x w t a e)).1;
    }

    pub execute-replays :
        (a : ActionIntent) (ctx : JsonObject) (w t : MemoryWorld L) (s : ExecutionResult)
        → a.idempotency_key ≡ some key
        → Held w.idempotency
        → execute h (on_memory h rt) a ctx w ≡ (ok s, t)
        → ReplayOrFailure s
    execute-replays a ctx w t s given held e =
        let run = run_from h a ctx w.drawn in
        receive-by h (on_memory h rt) run _ (Replays-Rules run) 1
          (λ tool _.
            subst
              (λ k.
                Everywhere h (on_memory h rt) run
                  (Triple h (on_memory h rt) run Held (λ a i. ReplayOrFailure a)) 2
                  (claim_key h (on_memory h rt) run tool k))
              (sym given)
              (λ u v b kept f. inl (ground (arith, claim_key-eq run tool u kept, ap (λ q. q.0) f))))
          _ t s held (sym (execute-receive h (on_memory h rt) a ctx w) ∙ e)

module _ (h : Host) (key : String) (rec : IdempotencyRecord)
    (done : is_completed rec.status ≡ true) where
  pub Step-freezes :
      {s t : InMemoryIdempotencyBackend}
      → Step h s t
      → get_record key s ≡ some rec
      → get_record key t ≡ some rec
  Step-freezes {s} {t} step held =
      let (r, held', later) = Step-keeps h key rec step held in
      subst (λ q. get_record key t ≡ some q) (later.frozen done) held'

  Runs-freeze :
      {L : Type 0} {w u : MemoryWorld L}
      → Runs h w u
      → get_record key w.idempotency ≡ some rec
      → get_record key u.idempotency ≡ some rec
  unfolding in_memory_backend
  Runs-freeze start held = held
  Runs-freeze (then_run {u} rt a ctx runs) held =
      (execute-Keeps h (on_memory h rt) (λ i. get_record key i ≡ some rec)
          (λ k i. Step-freezes (claims k i))
          (λ k token reference result i. Step-freezes (completes k token reference result i)) a
          ctx).at
        u (Runs-freeze runs held)

-- How a later run ended: with the stored result or with a failure, if it returned.
abbrev pub Answer : {S : Type 0} → ExecutionResult → Result ExecutionResult × S → Type 0
Answer r (ok s, t) = (s ≡ r) ⊎ (s.succeeded ≡ false)
Answer r (err e, t) = Unit

pub Answer-intro :
    {S : Type 0} (r : ExecutionResult) (x : Result ExecutionResult × S)
    → ((s : ExecutionResult) (t : S) → x ≡ (ok s, t) → (s ≡ r) ⊎ (s.succeeded ≡ false))
    → Answer r x
Answer-intro r (ok s, t) k = k s t refl
Answer-intro r (err e, t) k = tt

-- Over the in-memory backend, where pydantic stores the key as it is: if a run with a key that had no
-- record has returned a result and claimed the key, then after any further runs, of any runtimes over
-- the same backend, a run with the key that gets as far as its claim, whatever its tool, arguments
-- and intent are, is answered with exactly that result, and one that returns has returned that
-- result or a failure; provided that the dump of the result is not null and that pydantic reads it
-- back.
pub replayed_result :
    {L : Type 0} (h : Host) (rt rt' : MemoryRuntime L) (a a' : ActionIntent) (ctx ctx' : JsonObject)
    (key : String) (w t : MemoryWorld L) {u : MemoryWorld L} (r : ExecutionResult) (run : Run)
    (tool : RegisteredTool Handler)
    → a.idempotency_key ≡ some key
    → a'.idempotency_key ≡ some key
    → h.accept short_text key ≡ some key
    → is_set (rt.model_dump r) ≡ true
    → decode_execution_result rt' (rt.model_dump r) ≡ ok r
    → get_record key w.idempotency ≡ none
    → execute h (on_memory h rt) a ctx w ≡ (ok r, t)
    → get_record key t.idempotency ≢ none
    → Runs h t u
    → ((claim_key h (on_memory h rt') run tool (some key) u).0 ≡ ok r)
      × Answer r (execute h (on_memory h rt') a' ctx' u)
replayed_result h rt rt' a a' ctx ctx' key w t {u} r run tool given given' accepted set read free e
      claimed runs =
    elim (execute-stores h key accepted rt a ctx w t r given free e) [
      | inl still_free ↦ absurd (claimed still_free)
      | inr (rec, held, done, stored) ↦
          let is_stored = subst (λ v. is_set v ≡ true) (sym stored) set in
          let reads = subst (λ v. decode_execution_result rt' v ≡ ok r) (sym stored) read in
          let kept = Runs-freeze h key rec done runs held in
          (
            claim_key-eq h key rec done is_stored rt' r reads run tool u kept,
            Answer-intro r _ λ s v f.
                execute-replays h key rec done is_stored rt' r reads a' ctx' u v s given' kept f,
          )
    ]
