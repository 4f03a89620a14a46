-- ===== src/Action/Saga/Reconciliation.antt =====
-- action/saga/reconciliation.py: the inquiry loop for a transaction whose outcome is unknown. The
-- provider's answers are a parameter: what the n-th inquiry returns, or that it raises.
use rev_pilot_ai.Base.{
  ℕ, zero, suc, ◌+◌, String, Option, none, some, List, [], ◌∷◌, ◌++◌, str_eq, prefixed,
  if◌then◌else◌,
}
use rev_pilot_ai.Base.Time.{UtcDateTime}
use rev_pilot_ai.Action.Domain.{
  provider_error, timeout_unknown, reconciled, ActionIntentRecord, ActionLedgerRecord,
}

pub data ProviderTransactionStatus : Type 0 where
  confirmed no_record inconclusive : ProviderTransactionStatus

pub record ProviderInquiryResult : Type 0 where
  pub status : ProviderTransactionStatus
  pub provider_tx_id : Option String
  pub details : String

-- A call of `query_fn`: it returns, or raises with a text.
pub data Answer : Type 0 where
  returns : ProviderInquiryResult → Answer
  raises : String → Answer

pub record OutboxEvent : Type 0 where
  pub event_id : String
  pub event_type : String
  pub occurred_at : UtcDateTime
  pub tenant_id : String
  pub aggregate_id : String
  pub intent_id : String
  pub idempotency_key : String
  pub provider_name : String
  pub action_type : String
  pub attempts : ℕ
  pub last_inquiry_details : String

-- An entry of `inquiry_history`.
pub record InquiryEntry : Type 0 where
  pub attempt : ℕ
  pub provider : String
  pub idempotency_key : String
  pub timestamp : UtcDateTime

-- `ReconciliationManager`
pub record Manager : Type 0 where
  pub emitted_outbox_events : List OutboxEvent
  pub inquiry_history : List InquiryEntry

-- The `except` of the loop: an inquiry that raises is inconclusive.
unfoldable pub settle : Answer → ProviderInquiryResult
settle (returns r) = r
settle (raises text) = record { status = inconclusive; provider_tx_id = none; details = text }

-- `provider_tx_id or f"reconciled_{key}"`
abbrev tx_id_or : Option String → String → Option String
tx_id_or none key = some (prefixed "reconciled_" key)
tx_id_or (some t) key = if str_eq t "" then some (prefixed "reconciled_" key) else some t

abbrev pub confirmed_entry :
    ActionLedgerRecord → ProviderInquiryResult → UtcDateTime → ActionLedgerRecord
confirmed_entry l r now = record l {
  http_status_code = some 200;
  provider_tx_id = tx_id_or r.provider_tx_id l.idempotency_key;
  execution_status = reconciled;
  error_code = none;
  completed_at = some now;
}

abbrev pub no_record_entry : ActionLedgerRecord → UtcDateTime → ActionLedgerRecord
no_record_entry l now = record l {
  provider_tx_id = none;
  execution_status = provider_error;
  error_code = some "FAILED_NO_DISPATCH";
  completed_at = some now;
}

abbrev pub escalated_entry : ActionLedgerRecord → UtcDateTime → ActionLedgerRecord
escalated_entry l now = record l {
  provider_tx_id = none;
  execution_status = timeout_unknown;
  error_code = some "ERR_RECONCILIATION_REQUIRED";
  completed_at = some now;
}

-- `ERR_RECONCILIATION_REQUIRED`: the event for the operators.
abbrev pub escalation :
    ActionIntentRecord
    → ActionLedgerRecord
    → ℕ
    → ProviderInquiryResult
    → String
    → UtcDateTime
    → OutboxEvent
escalation i l max_attempts last event_id now = record {
  event_id = event_id;
  event_type = "action.reconciliation_required.v1";
  occurred_at = now;
  tenant_id = l.tenant_id;
  aggregate_id = l.ledger_id;
  intent_id = i.intent_id;
  idempotency_key = l.idempotency_key;
  provider_name = l.provider_name;
  action_type = i.action_type;
  attempts = max_attempts;
  last_inquiry_details = last.details;
}

abbrev pub inquiry_entry : ActionLedgerRecord → UtcDateTime → ℕ → InquiryEntry
inquiry_entry l now attempt = record {
  attempt = attempt;
  provider = l.provider_name;
  idempotency_key = l.idempotency_key;
  timestamp = now;
}

abbrev pub not_started : ProviderInquiryResult
not_started = record {
  status = inconclusive;
  provider_tx_id = none;
  details = "Inquiry not started";
}

abbrev pub note : InquiryEntry → Manager → Manager
note e m = record m { inquiry_history = m.inquiry_history ++ e ∷ [] }

-- The rounds of the loop that are left, from `attempt`, and after them the escalation.
unfoldable pub inquire :
    (ℕ → Answer)
    → ActionIntentRecord
    → ActionLedgerRecord
    → ℕ
    → String
    → UtcDateTime
    → (rounds attempt : ℕ) → ProviderInquiryResult
    → Manager
    → ActionLedgerRecord × Manager
inquire query i l max_attempts event_id now zero attempt last m = (
  escalated_entry l now,
  record m {
    emitted_outbox_events =
        m.emitted_outbox_events ++ escalation i l max_attempts last event_id now ∷ [];
  },
)
inquire query i l max_attempts event_id now (suc rounds) attempt last m =
    let r = settle (query attempt) in
    let m' = note (inquiry_entry l now attempt) m in
    let again = inquire query i l max_attempts event_id now rounds (attempt + 1) r m' in
    elim r.status [
      | confirmed ↦ (confirmed_entry l r now, m')
      | no_record ↦ (no_record_entry l now, m')
      | inconclusive ↦ again
    ]

unfoldable pub reconcile_unknown :
    (ℕ → Answer)
    → ActionIntentRecord
    → ActionLedgerRecord
    → ℕ
    → String
    → UtcDateTime
    → Manager
    → ActionLedgerRecord × Manager
unfolding inquire settle
reconcile_unknown query i l max_attempts event_id now m =
    inquire query i l max_attempts event_id now max_attempts 1 not_started m
