-- ===== src/Ledger/Models.antt =====
-- ledger/models.py, and the protocol `Ledger` of ledger/backend.py.
use agent_actum.Base.{ℕ, String, Option, none, some, List}
use agent_actum.Model.Json.{JsonObject}
use agent_actum.Model.Exec.{Exec, ok, err}

pub record LedgerEvent : Type 0 where
  pub event_id : ℕ
  pub correlation_id : ℕ
  pub sequence_number : ℕ
  pub event_type : String
  pub occurred_at : ℕ
  pub transaction_id : Option ℕ
  pub intent_id : Option ℕ
  pub actor_id : Option String
  pub details : JsonObject

-- The keyword arguments of `append`.
pub record AppendArguments : Type 0 where
  pub correlation_id : ℕ
  pub event_type : String
  pub intent_id : Option ℕ
  pub transaction_id : Option ℕ
  pub actor_id : Option String
  pub details : Option JsonObject

-- The protocol, over the state `S` of a ledger.
pub record Ledger (S : Type 0) : Type 0 where
  pub append : AppendArguments → Exec S LedgerEvent
  pub list_events : S → List LedgerEvent

-- An append to an optional ledger, whose event the caller does not use.
unfoldable pub emit : {S : Type 0} → Option (Ledger S) → AppendArguments → Exec S (Unit {0})
emit none args s = (ok tt, s)
emit (some ledger) args s =
    let (r, s') = ledger.append args s in (elim r [ ok _ ↦ ok tt | err e ↦ err e ], s')
