-- ===== src/Execution/Runtime/Audit.antt =====
-- What a run writes to the in-memory ledger.
use mathlib.Core.List.{append-nil, append_assoc}
use agent_actum.Base.{
  ℕ, suc, ◌≤◌, ◌≡◌, refl, sym, ap, ◌∙◌, subst, String, Option, none, some, List, [], ◌∷◌, ◌++◌,
  length, All, arith,
}
use agent_actum.Model.Json.{JsonObject}
use agent_actum.Model.Exec.{Result, ok, err, Exec, pure, lift, ◌>>=◌, bind_along}
use agent_actum.Model.Host.{Host}
use agent_actum.Contracts.Models.{ActionIntent}
use agent_actum.Ledger.Models.{LedgerEvent, AppendArguments}
use agent_actum.Ledger.Memory.{InMemoryLedger, append, list_events, in_memory_ledger}
use agent_actum.Ledger.Memory.Laws.{Appended, append-Appended}
use agent_actum.Idempotency.Models.{IdempotencyClaim}
use agent_actum.Execution.Models.{ExecutionResult}
use agent_actum.Execution.Runtime.Defs.{Runtime, World, Run, event, append_event, complete_claim}
use agent_actum.Execution.Runtime.Stages.{claim_from_backend, execute}
use agent_actum.Execution.Runtime.Invocation.{note, invoke}
use agent_actum.Execution.Runtime.Admission.{execute-receive, run_from}
use agent_actum.Execution.Runtime.Paths.{Statement, Steps}
use agent_actum.Execution.Runtime.Paths.Behind.{ClaimRules}
use agent_actum.Execution.Runtime.Paths.Whole.{WholeRules, whole-by}

-- An event of the action: correlated by its intent, and naming it.
abbrev pub EventOf : ActionIntent → LedgerEvent → Type 0
EventOf a e = (e.correlation_id ≡ a.intent_id) × (e.intent_id ≡ some a.intent_id)

-- The ledger has grown by at most `n` events, all of the action.
abbrev pub Grown : ActionIntent → ℕ → InMemoryLedger → InMemoryLedger → Type 0
Grown a n l l' =
    (new : List LedgerEvent) × (list_events l' ≡ list_events l ++ new)
    × All (EventOf a) new
    × (length new ≤ n)

module _ (a : ActionIntent) where
  Grown-refl : (n : ℕ) (l : InMemoryLedger) → Grown a n l l
  Grown-refl n l = ([], sym (append-nil _), tt, omega arith)

  -- One event in front.
  Grown-step :
      (n : ℕ) (l m l' : InMemoryLedger) (e : LedgerEvent)
      → list_events m ≡ list_events l ++ e ∷ []
      → EventOf a e
      → Grown a n m l'
      → Grown a (suc n) l l'
  Grown-step n l m l' e one own (new, more, all, few) = (
    e ∷ new,
    more ∙ (ap (λ es. es ++ new) one ∙ append_assoc (list_events l) (e ∷ []) new),
    (own, all),
    omega arith,
  )

  -- No event in front.
  Grown-skip :
      (n : ℕ) (l m l' : InMemoryLedger)
      → list_events m ≡ list_events l
      → Grown a n m l'
      → Grown a (suc n) l l'
  Grown-skip n l m l' same (new, more, all, few) =
      (new, more ∙ ap (λ es. es ++ new) same, all, omega arith)

module _ {I : Type 0} (h : Host) (given : Runtime InMemoryLedger I) where
  -- The runtime with the in-memory ledger in the place of its own.
  abbrev pub audited : Runtime InMemoryLedger I
  audited = record given { ledger = in_memory_ledger h }

  module _ (run : Run) where
    abbrev Audited : Statement h audited run
    Audited n w x = Grown run.action n w.ledger x.1.ledger

    -- An event of the run, and what follows it.
    noted :
        (n : ℕ) (t : String) (y : Option ℕ) (d : Option JsonObject) (w : World InMemoryLedger I)
        (l : InMemoryLedger)
        → Grown run.action n (note h audited run t y d w).1.ledger l
        → Grown run.action (suc n) w.ledger l
    unfolding append_event in_memory_ledger
    noted n t y d w l rest =
        by_outcome (append h args w.ledger) (append-Appended h args w.ledger) rest
      where
        args : AppendArguments
        args = event run t y d

        by_outcome :
            (x : Result LedgerEvent × InMemoryLedger)
            → Appended w.ledger args x
            → Grown run.action n x.1 l
            → Grown run.action (suc n) w.ledger l
        by_outcome (ok e, m) (one, c, i, _) rest =
            Grown-step run.action n w.ledger m l e one (c, i) rest
        by_outcome (err _, m) same rest = Grown-skip run.action n w.ledger m l same rest

    -- A step that leaves the ledger alone, and what follows it.
    unnoted :
        {B : Type 0} (n : ℕ) (m : Exec (World InMemoryLedger I) B)
        (f : B → Exec (World InMemoryLedger I) ExecutionResult) (w : World InMemoryLedger I)
        → (m w).1.ledger ≡ w.ledger
        → ((b : B) (u : World InMemoryLedger I) → m w ≡ (ok b, u) → Audited n u (f b u))
        → Audited n w ((m >>= f) w)
    unnoted n m f w same k =
        bind_along (λ s. Grown run.action n w.ledger s.ledger) m f w
          (subst (Grown run.action n w.ledger) (sym same) (Grown-refl run.action n w.ledger))
          λ b u r _.
            subst (λ l. Grown run.action n l (f b u).1.ledger) (ap (λ q. q.1.ledger) (sym r) ∙ same)
              (k b u r)

    Audited-Steps : Steps h audited run Audited
    Audited-Steps = record {
      after = λ B n m f q k w. unnoted n m f w (q.events w) (λ b u. k b w u);
      event = λ n t y d f k w.
          let said = (note h audited run t y d w).1.ledger in
          noted n t y d w ((note h audited run t y d >>= f) w).1.ledger (
            bind_along (λ s. Grown run.action n said s.ledger) (note h audited run t y d) f w
              (Grown-refl run.action n said)
              λ b u r _.
                subst (λ q. Grown run.action n q.1.ledger (f b u).1.ledger) (sym r) (k b u));
    }

    complete_claim-ledger :
        (claim : Option IdempotencyClaim) (r : ExecutionResult) (w : World InMemoryLedger I)
        → (complete_claim h audited claim r w).1.ledger ≡ w.ledger
    unfolding complete_claim
    complete_claim-ledger none r w = refl
    complete_claim-ledger (some c) r w = refl

    Audited-ClaimRules : (claim : Option IdempotencyClaim) → ClaimRules h audited run claim Audited
    unfolding invoke pure
    Audited-ClaimRules claim = record {
      finishing = record {
        steps = Audited-Steps;
        finish = λ n r b w.
            unnoted n (complete_claim h audited claim r) (λ _. pure r) w
              (complete_claim-ledger claim r w) (λ _ u _. Grown-refl run.action n u.ledger);
      };
      invoked = λ n tool f k w. unnoted n (invoke h audited run tool) f w refl (λ b u _. k b u);
    }

    Audited-WholeRules : WholeRules h audited run Audited
    unfolding lift
    Audited-WholeRules = record {
      rules = record { steps = Audited-Steps; ends = λ n r b w. Grown-refl run.action n w.ledger };
      claim_rules = Audited-ClaimRules;
      reads = λ n stored w. Grown-refl run.action n w.ledger;
      claims =
          λ n key f k w. unnoted n (claim_from_backend h audited run key) f w refl (λ b u _. k b u);
    }

  -- However a run over the in-memory ledger ends, it has appended at most five events behind those
  -- of the ledger, and each of them is correlated by the action's intent and names it.
  pub execute-Grown :
      (a : ActionIntent) (ctx : JsonObject) (w : World InMemoryLedger I)
      → Grown a 5 w.ledger (execute h audited a ctx w).1.ledger
  execute-Grown a ctx w = rw (execute-receive h audited a ctx w) (
      let run = run_from h a ctx w.drawn in
      whole-by h audited run (Audited run) (Audited-WholeRules run)
        (record w { drawn = suc (suc (suc w.drawn)) }))
