-- ===== src/Action/Domain.antt =====
-- action/domain.py: intents, journal entries, and the codes that `ActionError` carries.
use rev_pilot_ai.Base.{ℕ, String, Bool, Option}
use rev_pilot_ai.Base.Time.{UtcDateTime}

pub data ActionClassification : Type 0 where
  reversible compensatable partially_compensatable irreversible manual_reconciliation :
      ActionClassification

pub data ActionIntentStatus : Type 0 where
  initialized dispatched completed failed reconciling : ActionIntentStatus

pub data ActionLedgerStatus : Type 0 where
  started success provider_error timeout_unknown reconciled compensated : ActionLedgerStatus

pub record ActionIntentRecord : Type 0 where
  pub intent_id : String
  pub tenant_id : String
  pub approval_id : String
  pub idempotency_key : String
  pub action_type : String
  pub classification : ActionClassification
  pub target_set_count : ℕ
  pub payload_digest : String
  pub is_dry_run : Bool
  pub status : ActionIntentStatus
  pub created_at : UtcDateTime

pub record ActionLedgerRecord : Type 0 where
  pub ledger_id : String
  pub tenant_id : String
  pub intent_id : String
  pub attempt_number : ℕ
  pub idempotency_key : String
  pub provider_name : String
  pub request_digest : String
  pub response_digest : Option String
  pub http_status_code : Option ℕ
  pub provider_tx_id : Option String
  pub execution_status : ActionLedgerStatus
  pub error_code : Option String
  pub started_at : UtcDateTime
  pub completed_at : Option UtcDateTime

-- `validation_error` is pydantic's, for an empty idempotency key.
pub data ActionErrorCode : Type 0 where
  tenant_mismatch approval_not_granted intent_not_found ledger_not_found : ActionErrorCode
  validation_error : ActionErrorCode
