-- ===== src/Ledger/Memory.antt =====
-- `InMemoryLedger` of ledger/backend.py.
pub mod Laws
pub mod Tests
use agent_actum.Base.{
  ℕ, suc, ◌+◌, String, Option, none, some, List, [], ◌∷◌, ◌++◌, length, or_else, if◌then◌else◌,
}
use agent_actum.Model.Json.{JsonObject, dict, end}
use agent_actum.Model.Exec.{Result, ok, err, Exec, validation}
use agent_actum.Model.Host.{Host, checked, domain_name, short_text}
use agent_actum.Ledger.Models.{LedgerEvent, AppendArguments, Ledger}

-- `_events`, and the number of draws from the clock and from `uuid4`.
pub record InMemoryLedger : Type 0 where
  pub events : List LedgerEvent
  pub drawn : ℕ

abbrev pub empty : InMemoryLedger
empty = record { events = []; drawn = 0 }

-- An optional text under a rule.
abbrev pub checked_actor : Host → Option String → Result (Option String)
checked_actor h none = ok none
checked_actor h (some s) = elim (checked h short_text s) [ ok t ↦ ok (some t) | err e ↦ err e ]

-- The model `LedgerEvent` of the arguments, if pydantic accepts its texts and the details.
abbrev pub new_event : Host → AppendArguments → InMemoryLedger → Result LedgerEvent
new_event h args s = elim (checked h domain_name args.event_type) [
  | err e ↦ err e
  | ok event_type ↦ elim (checked_actor h args.actor_id) [
    | err e ↦ err e
    | ok actor_id ↦
        if h.json (dict (or_else args.details end))
        then ok (record {
          event_id = h.uuid4 s.drawn;
          correlation_id = args.correlation_id;
          sequence_number = length s.events + 1;
          event_type = event_type;
          occurred_at = h.clock (suc s.drawn);
          transaction_id = args.transaction_id;
          intent_id = args.intent_id;
          actor_id = actor_id;
          details = or_else args.details end;
        })
        else err (validation "details")
  ]
]

-- The event is listed; an event that is refused has used its draws and is not.
abbrev pub record_event : Result LedgerEvent → InMemoryLedger → Result LedgerEvent × InMemoryLedger
record_event (ok event) s =
    (ok event, record { events = s.events ++ event ∷ []; drawn = suc (suc s.drawn) })
record_event (err e) s = (err e, record s { drawn = suc (suc s.drawn) })

unfoldable pub append : Host → AppendArguments → Exec InMemoryLedger LedgerEvent
append h args s = record_event (new_event h args s) s

unfoldable pub list_events : InMemoryLedger → List LedgerEvent
list_events s = s.events

unfoldable pub in_memory_ledger : Host → Ledger InMemoryLedger
in_memory_ledger h = record { append = append h; list_events = list_events }
