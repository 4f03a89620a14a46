-- ===== src/Approval/Domain.antt =====
-- approval/domain.py: the request record and the codes that `ApprovalError` carries. A text that is
-- only stored or compared is a `String`; the payload is the JSON text of the dictionary.
use rev_pilot_ai.Base.{ℕ, String, Bool, true, false, Option, List}
use rev_pilot_ai.Base.Money.{Usd}
use rev_pilot_ai.Base.Time.{UtcDateTime}

pub data ApprovalStatus : Type 0 where
  draft pending approved rejected amended expired revoked superseded : ApprovalStatus
  executing completed unknown reconciliation_required : ApprovalStatus

pub data RiskTier : Type 0 where
  low medium high critical : RiskTier

pub record ApprovalRequestRecord : Type 0 where
  pub approval_id : String
  pub tenant_id : String
  pub decision_id : String
  pub investigation_id : Option String
  pub action_type : String
  pub action_version : String
  pub target_customer_id : String
  pub target_entity_refs : List String
  pub action_payload : String
  pub payload_digest : String
  pub policy_digest : String
  pub estimated_cost_usd : Usd
  pub reserved_budget_usd : Usd
  pub risk_tier : RiskTier
  pub required_approval_tier : ℕ
  pub requester_principal_id : Option String
  pub approver_principal_id : Option String
  pub approval_timestamp : Option UtcDateTime
  pub rejection_reason : Option String
  pub revocation_reason : Option String
  pub expiry_time : UtcDateTime
  pub status : ApprovalStatus
  pub decision_digest : String
  pub correlation_id : String
  pub causation_id : String
  pub created_at : UtcDateTime
  pub superseded_by : Option String

-- The `code` of an `ApprovalError` or a `PolicyViolationError`, without `ERR_`.
pub data ErrorCode : Type 0 where
  tenant_mismatch invalid_request agent_self_approval separation_of_duties_violation : ErrorCode
  already_used approval_expired approval_revoked invalid_approval_state : ErrorCode
  insufficient_approval_tier approval_digest_mismatch : ErrorCode
  kill_switch_active policy_stale budget_exceeded : ErrorCode

-- `status == ApprovalStatus.PENDING`
abbrev pub is_pending : ApprovalStatus → Bool
is_pending pending = true
is_pending _ = false
