-- ===== src/Idempotency/Models.antt =====
-- idempotency/models.py, and the protocol `IdempotencyBackend` of idempotency/backend.py.
use agent_actum.Base.{
  ℕ, String, Bool, true, false, ◌||◌, ltb, if◌then◌else◌, Option, none, some, is_some,
}
use agent_actum.Model.Json.{Value, null}
use agent_actum.Model.Exec.{Result, ok, err, Exec, value_error}

pub data IdempotencyRecordStatus : Type 0 where
  in_progress completed : IdempotencyRecordStatus

abbrev pub is_completed : IdempotencyRecordStatus → Bool
is_completed completed = true
is_completed in_progress = false

abbrev pub is_null : Value → Bool
is_null null = true
is_null _ = false

pub record IdempotencyRecord : Type 0 where
  pub key : String
  pub owner_token : ℕ
  pub status : IdempotencyRecordStatus
  pub claimed_at : ℕ
  pub completed_at : Option ℕ
  pub result_reference : Option String
  pub result : Value

-- `value is not None`.
abbrev pub is_set : Value → Bool
is_set null = false
is_set _ = true

abbrev validate_by_status :
    IdempotencyRecord → IdempotencyRecordStatus → Option ℕ → Result IdempotencyRecord
validate_by_status r in_progress at =
    if is_some at || (is_some r.result_reference || is_set r.result)
    then err (value_error "in-progress records cannot contain completion data")
    else ok r
validate_by_status r completed none = err (value_error "completed records require completed_at")
validate_by_status r completed (some at) =
    if ltb at r.claimed_at
    then err (value_error "completed_at must not precede claimed_at")
    else ok r

unfoldable pub validate_completion : IdempotencyRecord → Result IdempotencyRecord
validate_completion r = validate_by_status r r.status r.completed_at

pub record IdempotencyClaim : Type 0 where
  pub claimed : IdempotencyRecord
  pub acquired : Bool

pub record IdempotencyBackend (S : Type 0) : Type 0 where
  pub claim : String → Exec S IdempotencyClaim
  pub get_record : String → S → Option IdempotencyRecord
  pub mark_completed : String → ℕ → Option String → Value → Exec S IdempotencyRecord
