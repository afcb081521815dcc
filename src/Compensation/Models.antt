-- ===== src/Compensation/Models.antt =====
-- compensation/models.py, and the plan and the summary of compensation/coordinator.py.
use agent_actum.Base.{
  ℕ, Bool, true, false, not, ◌&&◌, String, ltb, if◌then◌else◌, Option, is_some, is_none, List,
}
use agent_actum.Model.Enums.{EffectType, reversible, compensatable, stageable}
use agent_actum.Model.Json.{Value}
use agent_actum.Model.Exec.{Result, ok, err, value_error}
use agent_actum.Execution.Models.{FailureDetail, ExecutionResult}

pub record CompensationResult : Type 0 where
  pub compensation_id : ℕ
  pub execution_id : ℕ
  pub transaction_id : ℕ
  pub intent_id : ℕ
  pub succeeded : Bool
  pub started_at : ℕ
  pub completed_at : ℕ
  pub output : Value
  pub error : Option FailureDetail

unfoldable pub validate_result : CompensationResult → Result CompensationResult
validate_result r =
    if ltb r.completed_at r.started_at
    then err (value_error "completed_at must not precede started_at")
    else if r.succeeded && is_some r.error
    then err (value_error "successful compensation cannot contain an error")
    else if not r.succeeded && is_none r.error
    then err (value_error "failed compensation requires an error")
    else ok r

pub data CompensationSummaryStatus : Type 0 where
  not_required compensated partially_compensated failed : CompensationSummaryStatus

abbrev pub summary_value : CompensationSummaryStatus → String
summary_value not_required = "not_required"
summary_value compensated = "compensated"
summary_value partially_compensated = "partially_compensated"
summary_value failed = "failed"

-- What a compensator returns or raises may depend on the compensations before it.
abbrev pub Compensator : Type 0
Compensator = ExecutionResult → List ExecutionResult → Result Value

pub record CompensationPlan : Type 0 where
  pub execution : ExecutionResult
  pub effect_type : EffectType
  pub compensator : Option Compensator

pub record CompensationSummary : Type 0 where
  pub status : CompensationSummaryStatus
  pub results : List CompensationResult
  pub uncompensated_executions : List ExecutionResult

-- `effect_type in _COMPENSATABLE_EFFECTS`.
abbrev pub is_compensatable : EffectType → Bool
is_compensatable reversible = true
is_compensatable compensatable = true
is_compensatable stageable = true
is_compensatable _ = false
