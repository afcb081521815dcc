-- ===== src/Model/Enums.antt =====
-- src/agentactum/enums.py, with the identity tests (`is`) that the program makes.
use agent_actum.Base.{ℕ, Bool, true, false, String}

pub data EffectType : Type 0 where
  read_only idempotent reversible compensatable stageable irreversible : EffectType

pub data RiskLevel : Type 0 where
  low medium high critical : RiskLevel

pub data PolicyDecisionType : Type 0 where
  allow deny require_approval allow_with_constraints : PolicyDecisionType

pub data TransactionStatus : Type 0 where
  proposed validating awaiting_approval approved executing committed : TransactionStatus
  rejected failed compensating compensated partially_compensated : TransactionStatus

-- `_RISK_RANK` of policies/engine.py.
abbrev pub risk_rank : RiskLevel → ℕ
risk_rank low = 0
risk_rank medium = 1
risk_rank high = 2
risk_rank critical = 3

-- `decision_type is PolicyDecisionType.DENY` and its likes.
abbrev pub is_deny : PolicyDecisionType → Bool
is_deny deny = true
is_deny _ = false

abbrev pub is_require_approval : PolicyDecisionType → Bool
is_require_approval require_approval = true
is_require_approval _ = false

abbrev pub is_allow_with_constraints : PolicyDecisionType → Bool
is_allow_with_constraints allow_with_constraints = true
is_allow_with_constraints _ = false

-- The `.value` texts of the enumerations that the program writes into events and messages.
abbrev pub risk_value : RiskLevel → String
risk_value low = "low"
risk_value medium = "medium"
risk_value high = "high"
risk_value critical = "critical"

abbrev pub decision_value : PolicyDecisionType → String
decision_value allow = "allow"
decision_value deny = "deny"
decision_value require_approval = "require_approval"
decision_value allow_with_constraints = "allow_with_constraints"

abbrev pub status_text : TransactionStatus → String
status_text proposed = "proposed"
status_text validating = "validating"
status_text awaiting_approval = "awaiting_approval"
status_text approved = "approved"
status_text executing = "executing"
status_text committed = "committed"
status_text rejected = "rejected"
status_text failed = "failed"
status_text compensating = "compensating"
status_text compensated = "compensated"
status_text partially_compensated = "partially_compensated"
