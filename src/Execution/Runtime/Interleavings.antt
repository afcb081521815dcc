-- ===== src/Execution/Runtime/Interleavings.antt =====
-- Runs that overlap, as those of two threads over one in-memory backend: in front of each call that
-- a run makes of the backend, others may have called it any number of times.
use agent_actum.Base.{ℕ, suc, String, ◌≡◌, ap, subst, ◌⊎◌, inl, inr, true, some, arith}
use agent_actum.Model.Json.{JsonObject}
use agent_actum.Model.Exec.{ok}
use agent_actum.Model.Host.{Host}
use agent_actum.Contracts.Models.{ActionIntent}
use agent_actum.Idempotency.Models.{IdempotencyClaim, IdempotencyBackend}
use agent_actum.Idempotency.Memory.{InMemoryIdempotencyBackend, claim, get_record, mark_completed}
use agent_actum.Idempotency.Memory.Runs.{Reach, claim_once}
use agent_actum.Execution.Runtime.Defs.{Runtime, World}
use agent_actum.Execution.Runtime.Stages.{execute}
use agent_actum.Execution.Runtime.Gates.{Acquired}
use agent_actum.Execution.Runtime.Admission.{run_from, execute-Gates}

-- The backend as one run sees it, and the number of calls that the run has made.
pub record Shared : Type 0 where
  pub backend : InMemoryIdempotencyBackend
  pub turn : ℕ

-- What the others make of the backend before the run's call of each turn.
abbrev pub Others : Type 0
Others = ℕ → InMemoryIdempotencyBackend → InMemoryIdempotencyBackend

-- The backend that a call of the run finds.
abbrev pub found : Others → Shared → InMemoryIdempotencyBackend
found others s = others s.turn s.backend

unfoldable pub shared_backend : Host → Others → IdempotencyBackend Shared
shared_backend h others = record {
  claim = λ key s.
      let (r, i) = claim h key (found others s) in (r, record { backend = i; turn = suc s.turn });
  get_record = λ key s. get_record key (found others s);
  mark_completed = λ key token reference result s.
      let (r, i) = mark_completed h key token reference result (found others s) in
      (r, record { backend = i; turn = suc s.turn });
}

-- A run among others.
abbrev pub among : {L : Type 0} → Host → Others → Runtime L Shared → Runtime L Shared
among h others rt = record rt { idempotency = shared_backend h others }

-- The lock lets in one of two claims of a key first: the other finds a backend that calls have led
-- to from behind it.
abbrev pub Ordered :
    Host → String → InMemoryIdempotencyBackend → InMemoryIdempotencyBackend → Type 0
Ordered h key s t = Reach h (claim h key s).1 t ⊎ Reach h (claim h key t).1 s

module _ (h : Host) (key : String) where
  -- The run's claim of the key was granted, by the backend that it found.
  abbrev Granted : InMemoryIdempotencyBackend → Type 0
  Granted s =
      (c : IdempotencyClaim) × (s' : InMemoryIdempotencyBackend) × (claim h key s ≡ (ok c, s'))
      × (c.acquired ≡ true)

  -- A run with the key invokes no handler, or its claim was granted.
  quiet-or-Granted :
      {L : Type 0} (others : Others) (rt : Runtime L Shared) (a : ActionIntent) (ctx : JsonObject)
      (w : World L Shared)
      → a.idempotency_key ≡ some key
      → ((execute h (among h others rt) a ctx w).1.calls ≡ w.calls)
        ⊎ Granted (found others w.idempotency)
  unfolding shared_backend
  quiet-or-Granted others rt a ctx w given = elim (execute-Gates h (among h others rt) a ctx w) [
    | inl quiet ↦ inl quiet
    | inr (g, once) ↦ inr (
        granted (
          subst (λ k. Acquired h (among h others rt) (run_from h a ctx w.drawn) k w.idempotency)
            given g.acquired))
  ]
    where
      granted :
          Acquired h (among h others rt) (run_from h a ctx w.drawn) (some key) w.idempotency
          → Granted (found others w.idempotency)
      granted (c, i, e, got) = (c, i.backend, ap (λ q. (q.0, q.1.backend)) e, got)

  -- Of two claims in this order the second is not granted.
  not_both :
      (s t : InMemoryIdempotencyBackend) → Reach h (claim h key s).1 t → Granted s → Granted t → ⊥
  not_both s t later (c, s', e, got) (d, t', f, got') =
      let (r, refused, _) =
        claim_once h key s {s' = s'} {t = t} {c = c} e got
          (subst (λ u. Reach h u t) (ap (λ q. q.1) e) later) in
      ground (arith, refused, f)

-- Of two runs with one key that overlap over one in-memory backend, others between any two of their
-- calls of it included, at most one invokes a handler, whichever of the two claims the backend's
-- lock lets in first.
pub overlapping_once :
    {L : Type 0} (h : Host) (others others' : Others) (rt rt' : Runtime L Shared)
    (a a' : ActionIntent) (ctx ctx' : JsonObject) (key : String) (w w' : World L Shared)
    → a.idempotency_key ≡ some key
    → a'.idempotency_key ≡ some key
    → Ordered h key (found others w.idempotency) (found others' w'.idempotency)
    → ((execute h (among h others rt) a ctx w).1.calls ≡ w.calls)
      ⊎ ((execute h (among h others' rt') a' ctx' w').1.calls ≡ w'.calls)
overlapping_once h others others' rt rt' a a' ctx ctx' key w w' given given' ordered =
    elim (quiet-or-Granted h key others rt a ctx w given) [
      | inl quiet ↦ inl quiet
      | inr first ↦ elim (quiet-or-Granted h key others' rt' a' ctx' w' given') [
        | inl quiet ↦ inr quiet
        | inr second ↦ elim ordered [
          | inl later ↦ absurd (not_both h key _ _ later first second)
          | inr later ↦ absurd (not_both h key _ _ later second first)
        ]
      ]
    ]
