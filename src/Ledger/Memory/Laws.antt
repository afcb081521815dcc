-- ===== src/Ledger/Memory/Laws.antt =====
-- What `append` does to the events of the in-memory ledger.
use agent_actum.Base.{ℕ, suc, ◌+◌, ◌≡◌, List, [], ◌∷◌, ◌++◌, length, arith, inl, inr}
use agent_actum.Model.Exec.{Result, ok, err, Result-cases}
use agent_actum.Model.Host.{Host}
use agent_actum.Ledger.Models.{LedgerEvent, AppendArguments}
use agent_actum.Ledger.Memory.{InMemoryLedger, append, list_events, new_event}

-- The sequence numbers count up from `n + 1`.
abbrev pub NumberedFrom : ℕ → List LedgerEvent → Type 0
NumberedFrom n [] = Unit
NumberedFrom n (e ∷ es) = (e.sequence_number ≡ suc n) × NumberedFrom (suc n) es

numbered-append :
    (n : ℕ) (es : List LedgerEvent) (e : LedgerEvent)
    → NumberedFrom n es
    → e.sequence_number ≡ suc (n + length es)
    → NumberedFrom n (es ++ e ∷ [])
numbered-append n [] e q s = (omega arith, tt)
numbered-append n (x ∷ es) e q s = (q.0, numbered-append (suc n) es e q.1 (omega arith))

-- What an append has done: the ledger ends in the event that was returned, or nothing was listed.
abbrev pub Appended :
    InMemoryLedger → AppendArguments → Result LedgerEvent × InMemoryLedger → Type 0
Appended s args (ok e, s') =
    (list_events s' ≡ list_events s ++ e ∷ [])
    × (e.correlation_id ≡ args.correlation_id)
    × (e.intent_id ≡ args.intent_id)
    × (e.transaction_id ≡ args.transaction_id)
Appended s args (err _, s') = list_events s' ≡ list_events s

module _ (h : Host) (args : AppendArguments) (s : InMemoryLedger) where
  -- `append` lists exactly the event that it returns, behind all earlier events, with the
  -- identifiers that it was given; when it raises, the listed events are what they were.
  pub append-Appended : Appended s args (append h args s)
  unfolding append list_events
  append-Appended = ground arith

  -- Appending keeps the numbering 1, 2, 3, … of the events, whether it returns or raises.
  pub append-NumberedFrom :
      NumberedFrom 0 (list_events s) → NumberedFrom 0 (list_events (append h args s).1)
  unfolding append list_events
  append-NumberedFrom q = elim (Result-cases (new_event h args s)) [
    | inl (e, made) ↦ rw made (numbered-append 0 s.events e q (ground arith))
    | inr (x, refused) ↦ rw refused q
  ]
