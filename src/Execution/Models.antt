-- ===== src/Execution/Models.antt =====
-- execution/models.py.
use agent_actum.Base.{
  ℕ, String, ◌≡◌, ◌≤◌, Bool, true, false, ltb, if◌then◌else◌, Option, some, is_some, is_none, arith,
}
use agent_actum.Model.Json.{Value}
use agent_actum.Model.Exec.{Result, ok, err, value_error, validation}
use agent_actum.Model.Host.{Host, checked, short_text, long_text}

pub record FailureDetail : Type 0 where
  pub code : String
  pub message : String

-- The model's constructor: pydantic stores both texts or raises.
abbrev pub failure_detail : Host → String → String → Result FailureDetail
failure_detail h code message = elim (checked h short_text code) [
  | err e ↦ err e
  | ok c ↦ elim (checked h long_text message) [
    | err e ↦ err e
    | ok m ↦ ok (record { code = c; message = m })
  ]
]

pub record ExecutionResult : Type 0 where
  pub execution_id : ℕ
  pub transaction_id : ℕ
  pub intent_id : ℕ
  pub succeeded : Bool
  pub started_at : ℕ
  pub completed_at : ℕ
  pub output : Value
  pub error : Option FailureDetail
  pub postcondition_verified : Option Bool

-- `flag is False`.
abbrev pub is_false : Option Bool → Bool
is_false (some false) = true
is_false _ = false

unfoldable pub validate_result : ExecutionResult → Result ExecutionResult
validate_result r =
    if ltb r.completed_at r.started_at
    then err (value_error "completed_at must not precede started_at")
    else if r.succeeded
    then (if is_some r.error
        then err (value_error "successful execution cannot contain an error")
        else if is_false r.postcondition_verified
        then err (value_error "successful execution cannot fail its postcondition")
        else ok r)
    else if is_none r.error
    then err (value_error "failed execution requires an error")
    else ok r

-- The model's constructor, over fields of the right types: pydantic looks at the output.
unfoldable pub execution_result : Host → ExecutionResult → Result ExecutionResult
execution_result h r = if h.json r.output then validate_result r else err (validation "output")

-- A coherent result: it did not end before it began, and it has an error exactly when it failed.
pub record IsCoherent (r : ExecutionResult) : Type 0 where
  pub ordered : r.started_at ≤ r.completed_at
  pub explained : is_none r.error ≡ r.succeeded
  pub verified : r.succeeded ≡ true → is_false r.postcondition_verified ≡ false

-- The constructor returns its fields, and only if they are coherent.
pub execution_result-IsCoherent :
    (h : Host) (r s : ExecutionResult) → execution_result h r ≡ ok s → (s ≡ r) × IsCoherent r
unfolding execution_result validate_result
execution_result-IsCoherent h r s e = (ground arith, ground arith)
