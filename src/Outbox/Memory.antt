-- ===== src/Outbox/Memory.antt =====
-- `InMemoryOutboxBackend` of outbox/backend.py. A handler is a function of its arguments and of the
-- invocations before it; it does not call the outbox itself.
use agent_actum.Base.{
  ℕ, suc, nat_eq, ◌==◌, String, not, if◌then◌else◌, Option, none, some, List, [], ◌∷◌, ◌++◌, Dict,
  lookup, insert, values, select,
}
use agent_actum.Model.Json.{Value, null, str, dict, JsonObject, end, field}
use agent_actum.Model.Exec.{
  Result, ok, err, Exec, unknown_operation, key_error, validation, pure, ◌>>=◌,
}
use agent_actum.Model.Host.{Host, checked, domain_name}
use agent_actum.Ledger.Models.{Ledger, emit}
use agent_actum.Execution.Models.{FailureDetail, failure_detail}
use agent_actum.Outbox.Models.{
  OutboxOperation, OutboxStatus, staged, released, failed, is_staged, is_released, outbox_value,
  validate_status_fields, OutboxReleaseSummary,
}

-- An invocation of a staged handler: the effect on the outside world.
pub record OutboxCall : Type 0 where
  pub operation_id : ℕ
  pub arguments : JsonObject

abbrev pub OutboxHandler : Type 0
OutboxHandler = JsonObject → List OutboxCall → Result Value

-- `_operations`, `_handlers` and the state of `_ledger`; the number of draws from the clock and from
-- `uuid4`, and the invocations so far.
pub record InMemoryOutboxBackend (L : Type 0) : Type 0 where
  pub operations : Dict ℕ OutboxOperation
  pub handlers : Dict ℕ OutboxHandler
  pub ledger : L
  pub drawn : ℕ
  pub calls : List OutboxCall

abbrev pub empty : {L : Type 0} → L → InMemoryOutboxBackend L
empty ledger = record { operations = []; handlers = []; ledger = ledger; drawn = 0; calls = [] }

-- The keyword arguments of `stage`.
pub record StageArguments : Type 0 where
  pub transaction_id : ℕ
  pub operation_name : String
  pub arguments : JsonObject
  pub handler : OutboxHandler

-- The model of a new operation, if pydantic accepts its name and its arguments.
abbrev pub staged_operation : Host → StageArguments → ℕ → Result OutboxOperation
staged_operation h args drawn = elim (checked h domain_name args.operation_name) [
  | err e ↦ err e
  | ok name ↦
      if h.json (dict args.arguments)
      then validate_status_fields (record {
        operation_id = h.uuid4 drawn;
        transaction_id = args.transaction_id;
        operation_name = name;
        arguments = args.arguments;
        status = staged;
        staged_at = h.clock (suc drawn);
        released_at = none;
        output = null;
        error = none;
      })
      else err (validation "arguments")
]

-- The model of an operation whose handler has returned or raised.
abbrev pub failed_operation : OutboxOperation → ℕ → Result FailureDetail → Result OutboxOperation
failed_operation o at (err e) = err e
failed_operation o at (ok detail) =
    validate_status_fields
      (record o { status = failed; released_at = some at; output = null; error = some detail })

abbrev pub released_operation : Host → OutboxOperation → Result Value → ℕ → Result OutboxOperation
released_operation h o (err _) at =
    failed_operation o at
      (failure_detail h "outbox_release_failed" "Staged operation handler raised an exception.")
released_operation h o (ok output) at =
    if h.json output
    then validate_status_fields
        (record o { status = released; released_at = some at; output = output; error = none })
    else err (validation "output")

unfoldable pub list_operations :
    {L : Type 0} → Option ℕ → InMemoryOutboxBackend L → List OutboxOperation
list_operations none s = values s.operations
list_operations (some transaction_id) s =
    select (λ o. o.transaction_id == transaction_id) (values s.operations)

module _ {L : Type 0} (h : Host) (ledger : Option (Ledger L)) where
  -- `_append_event`; what the ledger raises is not caught.
  unfoldable pub append_event : String → OutboxOperation → Exec (InMemoryOutboxBackend L) (Unit {0})
  append_event event_type o s =
      let (r, l) =
        emit ledger
          (record {
            correlation_id = o.transaction_id;
            event_type = event_type;
            intent_id = none;
            transaction_id = some o.transaction_id;
            actor_id = none;
            details = some (
                field "operation_id" (str (h.uuid_text o.operation_id)) (
                  field "operation_name" (str o.operation_name)
                    (field "status" (str (outbox_value o.status)) end)));
          })
          s.ledger in
      (r, record s { ledger = l })

  -- The event, and the operation as the answer.
  abbrev pub recorded : String → OutboxOperation → Exec (InMemoryOutboxBackend L) OutboxOperation
  recorded event_type o = append_event event_type o >>= λ _. pure o

  abbrev pub store_staged :
      Result OutboxOperation → OutboxHandler → Exec (InMemoryOutboxBackend L) OutboxOperation
  store_staged (err e) handler s = (err e, record s { drawn = suc (suc s.drawn) })
  store_staged (ok o) handler s = recorded "outbox.staged" o (record s {
    operations = insert o.operation_id o s.operations;
    handlers = insert o.operation_id handler s.handlers;
    drawn = suc (suc s.drawn);
  })

  unfoldable pub stage : StageArguments → Exec (InMemoryOutboxBackend L) OutboxOperation
  stage args s = store_staged (staged_operation h args s.drawn) args.handler s

  abbrev pub release_event : OutboxStatus → String
  release_event status = if is_released status then "outbox.released" else "outbox.release_failed"

  abbrev pub store_release :
      ℕ → Result OutboxOperation → Exec (InMemoryOutboxBackend L) OutboxOperation
  store_release operation_id (err e) s = (err e, s)
  store_release operation_id (ok o) s =
      recorded (release_event o.status) o
        (record s { operations = insert operation_id o s.operations })

  -- The state behind the call of the handler and the draw of the time of release.
  abbrev pub invoked : ℕ → OutboxOperation → InMemoryOutboxBackend L → InMemoryOutboxBackend L
  invoked operation_id o s = record s {
    calls = s.calls ++ record { operation_id = operation_id; arguments = o.arguments } ∷ [];
    drawn = suc s.drawn;
  }

  abbrev pub invoke :
      ℕ → OutboxOperation → OutboxHandler → Exec (InMemoryOutboxBackend L) OutboxOperation
  invoke operation_id o handler s =
      store_release operation_id
        (released_operation h o (handler o.arguments s.calls) (h.clock s.drawn))
        (invoked operation_id o s)

  abbrev pub release_with :
      ℕ → OutboxOperation → Option OutboxHandler → Exec (InMemoryOutboxBackend L) OutboxOperation
  release_with operation_id o none s = (err (key_error (h.uuid_text operation_id)), s)
  release_with operation_id o (some handler) s = invoke operation_id o handler s

  abbrev pub release_from :
      ℕ → Option OutboxOperation → Exec (InMemoryOutboxBackend L) OutboxOperation
  release_from operation_id none s = (err (unknown_operation operation_id), s)
  release_from operation_id (some o) s =
      if not (is_staged o.status)
      then (ok o, s)
      else release_with operation_id o (lookup operation_id s.handlers) s

  unfoldable pub release : ℕ → Exec (InMemoryOutboxBackend L) OutboxOperation
  release operation_id s = release_from operation_id (lookup operation_id s.operations) s

  abbrev pub sort_result :
      OutboxOperation
      → List OutboxOperation × List OutboxOperation
      → List OutboxOperation × List OutboxOperation
  sort_result result (done, undone) =
      if is_released result.status then (result ∷ done, undone) else (done, result ∷ undone)

  -- The loop of `release_all`: the released and the failed operations, in the order of the list.
  unfoldable pub release_each :
      List OutboxOperation
      → Exec (InMemoryOutboxBackend L) (List OutboxOperation × List OutboxOperation)
  release_each [] = pure ([], [])
  release_each (o ∷ rest) = do
    result ← release o.operation_id
    others ← release_each rest
    pure (sort_result result others)

  abbrev pub staged_operations : ℕ → InMemoryOutboxBackend L → List OutboxOperation
  staged_operations transaction_id s =
      select (λ o. is_staged o.status) (list_operations (some transaction_id) s)

  unfoldable pub release_all : ℕ → Exec (InMemoryOutboxBackend L) OutboxReleaseSummary
  release_all transaction_id s =
      (release_each (staged_operations transaction_id s) >>= λ sorted.
      pure (record { transaction_id = transaction_id; released = sorted.0; failed = sorted.1 }))
        s
