-- ===== src/Approvals/Models.antt =====
-- approvals/models.py: `ApprovalRequest` and its validator.
use agent_actum.Base.{ℕ, String, ltb, if◌then◌else◌}
use agent_actum.Model.Enums.{RiskLevel}
use agent_actum.Model.Exec.{Result, ok, err, value_error}

pub record ApprovalRequest : Type 0 where
  pub approval_request_id : ℕ
  pub intent_id : ℕ
  pub transaction_id : ℕ
  pub policy_decision_id : ℕ
  pub intent_fingerprint : String
  pub risk_level : RiskLevel
  pub reason : String
  pub requested_at : ℕ
  pub expires_at : ℕ

unfoldable pub validate_expiry : ApprovalRequest → Result ApprovalRequest
validate_expiry r =
    if ltb r.requested_at r.expires_at
    then ok r
    else err (value_error "expires_at must be after requested_at")
