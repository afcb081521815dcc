-- ===== src/Ledger/Memory/Tests.antt =====
-- Tests of the in-memory ledger, and its theorems at concrete inputs.
use agent_actum.Base.{◌≡◌, refl, none, some, [], ◌∷◌}
use agent_actum.Samples.{host}
use agent_actum.Model.Json.{end}
use agent_actum.Ledger.Models.{AppendArguments}
use agent_actum.Ledger.Memory.{InMemoryLedger, empty, append, list_events}
use agent_actum.Ledger.Memory.Laws.{Appended, NumberedFrom, append-Appended, append-NumberedFrom}

abbrev arguments : AppendArguments
arguments = record {
  correlation_id = 3;
  event_type = "action_received";
  intent_id = some 3;
  transaction_id = none;
  actor_id = none;
  details = none;
}

abbrev one_event : InMemoryLedger
one_event = record {
  events =
      record {
        event_id = 100;
        correlation_id = 3;
        sequence_number = 1;
        event_type = "action_received";
        occurred_at = 1;
        transaction_id = none;
        intent_id = some 3;
        actor_id = none;
        details = end;
      }
      ∷ [];
  drawn = 2;
}

-- It is what the first append leaves.
append_first : (append host arguments empty).1 ≡ one_event
unfolding append
append_first = refl

append_listed : Appended one_event arguments (append host arguments one_event)
append_listed = append-Appended host arguments one_event

append-NumberedFrom_example : NumberedFrom 0 (list_events (append host arguments one_event).1)
unfolding list_events
append-NumberedFrom_example = append-NumberedFrom host arguments one_event (refl, tt)
