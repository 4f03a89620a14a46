-- ===== src/Action/Ledger.antt =====
-- action/ledger.py: intents with tenant-scoped idempotency, and the journal of attempts. Fresh
-- identifiers and the clock's readings are arguments.
pub mod Index
pub mod Calls
pub mod Evolution
pub mod Idempotency
pub mod Attempts
use rev_pilot_ai.Base.{
  ℕ, suc, ◌+◌, String, Bool, true, false, not, ◌&&◌, Option, none, some, List, length, Action, pure,
  raise, gets, or_raise, raise_if, modify, ◌>>=◌, ◌>>◌, str_eq, if◌then◌else◌,
}
use rev_pilot_ai.Base.Time.{UtcDateTime}
use rev_pilot_ai.Approval.Domain.{ApprovalStatus, approved, ApprovalRequestRecord}
use rev_pilot_ai.Action.Domain.{
  ActionClassification, ActionIntentStatus, initialized, dispatched, completed, failed, reconciling,
  ActionLedgerStatus, started, success, provider_error, timeout_unknown, ActionIntentRecord,
  ActionLedgerRecord, ActionErrorCode, tenant_mismatch, approval_not_granted, intent_not_found,
  ledger_not_found, validation_error,
}
use rev_pilot_ai.Action.Repository.{
  ActionStore, save_intent, update_intent, get_intent, get_by_idempotency_key, save_ledger,
  update_ledger, get_ledger, list_by_intent,
}

abbrev pub Call : Type 0 → Type 0
Call A = Action ActionStore ActionErrorCode A

-- `approval.status != ApprovalStatus.APPROVED`, negated
abbrev pub is_approved : ApprovalStatus → Bool
is_approved approved = true
is_approved _ = false

abbrev pub new_intent :
    String
    → ApprovalRequestRecord
    → String
    → ActionClassification
    → Bool
    → String
    → UtcDateTime
    → ActionIntentRecord
new_intent ctx_tenant a key classification is_dry_run new_id now = record {
  intent_id = new_id;
  tenant_id = ctx_tenant;
  approval_id = a.approval_id;
  idempotency_key = key;
  action_type = a.action_type;
  classification = classification;
  target_set_count = length a.target_entity_refs;
  payload_digest = a.payload_digest;
  is_dry_run = is_dry_run;
  status = initialized;
  created_at = now;
}

-- The rest of `create_intent`, once the key has been looked up.
abbrev intent_unless :
    Option ActionIntentRecord → ApprovalRequestRecord → ActionIntentRecord → Call ActionIntentRecord
intent_unless (some existing) a i = pure existing
intent_unless none a i = do
  raise_if (not i.is_dry_run && not (is_approved a.status)) approval_not_granted
  raise_if (str_eq i.idempotency_key "") validation_error
  modify (save_intent i)
  pure i

unfoldable pub create_intent :
    String
    → ApprovalRequestRecord
    → String
    → ActionClassification
    → Bool
    → String
    → UtcDateTime
    → Call ActionIntentRecord
create_intent ctx_tenant a key classification is_dry_run new_id now = do
  raise_if (not (str_eq ctx_tenant a.tenant_id)) tenant_mismatch
  existing ← gets (get_by_idempotency_key ctx_tenant key)
  intent_unless existing a (new_intent ctx_tenant a key classification is_dry_run new_id now)

abbrev pub new_attempt :
    String → String → ℕ → String → String → String → String → UtcDateTime → ActionLedgerRecord
new_attempt ctx_tenant intent_id number key provider_name request_digest new_id now = record {
  ledger_id = new_id;
  tenant_id = ctx_tenant;
  intent_id = intent_id;
  attempt_number = number;
  idempotency_key = key;
  provider_name = provider_name;
  request_digest = request_digest;
  response_digest = none;
  http_status_code = none;
  provider_tx_id = none;
  execution_status = started;
  error_code = none;
  started_at = now;
  completed_at = none;
}

-- `if intent.status == "INITIALIZED"`: the intent becomes DISPATCHED.
abbrev pub dispatch : ActionIntentStatus → ActionIntentRecord → Call (Unit {0})
dispatch initialized i = modify (update_intent (record i { status = dispatched }))
dispatch _ i = pure tt

unfoldable pub record_attempt_start :
    String → String → String → String → String → String → UtcDateTime → Call ActionLedgerRecord
record_attempt_start ctx_tenant intent_id key provider_name request_digest new_id now = do
  intent ← or_raise (← gets (get_intent ctx_tenant intent_id)) intent_not_found
  existing_attempts ← gets (list_by_intent ctx_tenant intent_id)
  let r =
      new_attempt ctx_tenant intent_id (length existing_attempts + 1) key provider_name
        request_digest new_id now
  modify (save_ledger r)
  dispatch intent.status intent
  pure r

-- What a caller gives `record_attempt_completion`.
pub record Completion : Type 0 where
  pub status : ActionLedgerStatus
  pub response_digest : Option String
  pub http_status_code : Option ℕ
  pub tx_id : Option String
  pub error_code : Option String

abbrev pub completed_attempt : ActionLedgerRecord → Completion → UtcDateTime → ActionLedgerRecord
completed_attempt r c now = record r {
  execution_status = c.status;
  response_digest = c.response_digest;
  http_status_code = c.http_status_code;
  provider_tx_id = c.tx_id;
  error_code = c.error_code;
  completed_at = some now;
}

-- The parent intent's status by the attempt's, where it changes.
abbrev pub propagated : ActionLedgerStatus → Option ActionIntentStatus
propagated success = some completed
propagated provider_error = some failed
propagated timeout_unknown = some reconciling
propagated _ = none

abbrev pub propagate : Option ActionIntentRecord → Option ActionIntentStatus → Call (Unit {0})
propagate (some i) (some st) = modify (update_intent (record i { status = st }))
propagate (some i) none = pure tt
propagate none _ = pure tt

unfoldable pub record_attempt_completion :
    String → String → Completion → UtcDateTime → Call ActionLedgerRecord
record_attempt_completion ctx_tenant ledger_id c now = do
  r ← or_raise (← gets (get_ledger ctx_tenant ledger_id)) ledger_not_found
  modify (update_ledger (completed_attempt r c now))
  intent ← gets (get_intent ctx_tenant r.intent_id)
  propagate intent (propagated c.status)
  pure (completed_attempt r c now)
