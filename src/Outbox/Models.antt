-- ===== src/Outbox/Models.antt =====
-- outbox/models.py.
use agent_actum.Base.{
  ℕ, String, Bool, true, false, ◌||◌, ltb, if◌then◌else◌, Option, none, some, is_some, is_none,
  List, is_empty,
}
use agent_actum.Model.Json.{Value, JsonObject}
use agent_actum.Model.Exec.{Result, ok, err, value_error}
use agent_actum.Idempotency.Models.{is_set}
use agent_actum.Execution.Models.{FailureDetail}

pub data OutboxStatus : Type 0 where
  staged released failed : OutboxStatus

abbrev pub is_staged : OutboxStatus → Bool
is_staged staged = true
is_staged _ = false

abbrev pub is_released : OutboxStatus → Bool
is_released released = true
is_released _ = false

abbrev pub outbox_value : OutboxStatus → String
outbox_value staged = "staged"
outbox_value released = "released"
outbox_value failed = "failed"

pub record OutboxOperation : Type 0 where
  pub operation_id : ℕ
  pub transaction_id : ℕ
  pub operation_name : String
  pub arguments : JsonObject
  pub status : OutboxStatus
  pub staged_at : ℕ
  pub released_at : Option ℕ
  pub output : Value
  pub error : Option FailureDetail

-- `released_at is not None and released_at < staged_at`.
abbrev precedes : Option ℕ → ℕ → Bool
precedes none at = false
precedes (some r) at = ltb r at

abbrev check_release_time : OutboxOperation → Result OutboxOperation
check_release_time o =
    if precedes o.released_at o.staged_at
    then err (value_error "released_at must not precede staged_at")
    else ok o

abbrev check_by_status : OutboxOperation → OutboxStatus → Result OutboxOperation
check_by_status o staged =
    if is_some o.released_at || is_set o.output
    then err (value_error "staged outbox operations cannot contain release data")
    else if is_some o.error
    then err (value_error "staged outbox operations cannot contain an error")
    else check_release_time o
check_by_status o released =
    if is_none o.released_at
    then err (value_error "released outbox operations require released_at")
    else if is_some o.error
    then err (value_error "released outbox operations cannot contain an error")
    else check_release_time o
check_by_status o failed =
    if is_none o.released_at
    then err (value_error "failed outbox operations require released_at")
    else if is_none o.error
    then err (value_error "failed outbox operations require an error")
    else check_release_time o

unfoldable pub validate_status_fields : OutboxOperation → Result OutboxOperation
validate_status_fields o = check_by_status o o.status

pub record OutboxReleaseSummary : Type 0 where
  pub transaction_id : ℕ
  pub released : List OutboxOperation
  pub failed : List OutboxOperation

abbrev pub succeeded : OutboxReleaseSummary → Bool
succeeded summary = is_empty summary.failed
