-- ===== src/Action/Saga/Workflow.antt =====
-- action/saga/workflow.py: `SafeActionSagaWorkflow`. A step's payload is its three flags, as
-- `payload.get(flag, False)` reads them, and the rest.
use rev_pilot_ai.Base.{
  ℕ, String, Bool, true, false, none, some, List, [], ◌∷◌, ◌++◌, reverse, Result, ok, err, prefixed,
  if◌then◌else◌,
}
use rev_pilot_ai.Base.Time.{UtcDateTime}
use rev_pilot_ai.Action.Domain.{
  ActionClassification, irreversible, success, provider_error, timeout_unknown, compensated,
  ActionIntentRecord, ActionLedgerRecord,
}
use rev_pilot_ai.Action.Saga.Reconciliation.{Answer, Manager, reconcile_unknown}
use rev_pilot_ai.Action.Saga.Activities.{
  CompensationStatus, failed_manual_required, CompensationRecord, Registry, Environment,
  compensation, file_record, compensate_step_activity,
}

pub record Payload : Type 0 where
  pub simulate_timeout : Bool
  pub simulate_failure : Bool
  pub simulate_compensation_failure : Bool
  pub rest : String

pub record SagaStep : Type 0 where
  pub name : String
  pub compensation_action : String
  pub payload : Payload
  pub is_irreversible : Bool

-- An entry of `completed_steps`: with or without the name of its compensation.
pub data CompletedStep : Type 0 where
  pair : String → Payload → CompletedStep
  triple : String → Payload → String → CompletedStep

abbrev pub step_name_of : CompletedStep → String
step_name_of (pair name p) = name
step_name_of (triple name p action) = name

abbrev pub payload_of : CompletedStep → Payload
payload_of (pair name p) = p
payload_of (triple name p action) = p

-- `f"compensate_{step_name}"` where the entry names no compensation
abbrev pub action_of : CompletedStep → String
action_of (pair name p) = prefixed "compensate_" name
action_of (triple name p action) = action

-- The workflow's own fields, the registry and the reconciliation manager.
pub record Saga : Type 0 where
  pub compensation_history : List CompensationRecord
  pub completed_steps : List (String × Payload)
  pub registry : Registry
  pub manager : Manager

abbrev pub remember : CompensationRecord → Registry → Saga → Saga
remember r g w = record w { compensation_history = w.compensation_history ++ r ∷ []; registry = g }

abbrev is_failed : CompensationStatus → Bool
is_failed failed_manual_required = true
is_failed _ = false

-- The loop over the reversed steps, which a failed compensation ends.
unfoldable pub compensate_each :
    Environment → String → String → List CompletedStep → Saga → List CompensationRecord × Saga
unfolding compensate_step_activity
compensate_each env tenant intent [] w = ([], w)
compensate_each env tenant intent (e ∷ es) w =
    let (r, g) =
      compensate_step_activity env (step_name_of e) (action_of e) tenant intent
        (payload_of e).simulate_compensation_failure w.registry in
    let w' = remember r g w in
    let (rs, w'') = compensate_each env tenant intent es w' in
    if is_failed r.status then (r ∷ [], w') else (r ∷ rs, w'')

pub data SagaError : Type 0 where
  irreversible_action : SagaError

-- `classification == ActionClassification.IRREVERSIBLE`
abbrev pub is_barred : ActionClassification → Bool
is_barred irreversible = true
is_barred _ = false

-- The record that the irreversible barrier leaves.
abbrev pub barrier : Environment → String → String → Registry → CompensationRecord
barrier env tenant intent g =
    compensation env "IRREVERSIBLE_BARRIER" "FLAG_OPERATOR_MANUAL_TICKET" tenant intent
      failed_manual_required g

-- The tenant and the intent are given; the stand-ins for absent ones are left out.
unfoldable pub compensate_steps :
    Environment
    → String
    → String
    → ActionClassification
    → List CompletedStep
    → Saga
    → Result SagaError (List CompensationRecord) × Saga
unfolding compensate_each
compensate_steps env tenant intent classification steps w =
    let r = barrier env tenant intent w.registry in
    let (rs, w') = compensate_each env tenant intent (reverse steps) w in
    if is_barred classification
    then (err irreversible_action, remember r (file_record r w.registry) w)
    else (ok rs, w')

-- The journal entry that a saga returns, before its outcome is filled in.
abbrev pub saga_entry : ActionIntentRecord → String → UtcDateTime → String → ActionLedgerRecord
saga_entry i ledger_id now provider = record {
  ledger_id = ledger_id;
  tenant_id = i.tenant_id;
  intent_id = i.intent_id;
  attempt_number = 1;
  idempotency_key = i.idempotency_key;
  provider_name = provider;
  request_digest = i.payload_digest;
  response_digest = none;
  http_status_code = none;
  provider_tx_id = none;
  execution_status = success;
  error_code = none;
  started_at = now;
  completed_at = none;
}

-- `SafeActionSagaWorkflow.reconcile_unknown`, with the manager's three attempts
unfoldable pub saga_reconcile :
    (ℕ → Answer)
    → ActionIntentRecord
    → String
    → String
    → UtcDateTime
    → Saga
    → ActionLedgerRecord × Saga
unfolding reconcile_unknown
saga_reconcile query i ledger_id event_id now w =
    let entry = record (saga_entry i ledger_id now "mock_logistics_v1") {
      execution_status = timeout_unknown;
      error_code = some "TIMEOUT_UNKNOWN";
    } in
    let (l, m) = reconcile_unknown query i entry 3 event_id now w.manager in
    (l, record w { manager = m })

abbrev pub succeeded_entry : ActionIntentRecord → String → UtcDateTime → ActionLedgerRecord
succeeded_entry i ledger_id now = record (saga_entry i ledger_id now "mock_provider") {
  http_status_code = some 200;
  provider_tx_id = some (prefixed "saga_" i.idempotency_key);
  completed_at = some now;
}

-- The entry after the compensation, by how that ended.
abbrev pub failed_entry :
    ActionIntentRecord
    → String
    → UtcDateTime
    → Result SagaError (List CompensationRecord)
    → ActionLedgerRecord
failed_entry i ledger_id now (err e) = record (saga_entry i ledger_id now "mock_provider") {
  execution_status = provider_error;
  error_code = some "ERR_IRREVERSIBLE_MANUAL_REQUIRED";
  completed_at = some now;
}
failed_entry i ledger_id now (ok rs) = record (saga_entry i ledger_id now "mock_provider") {
  execution_status = compensated;
  error_code = some "ERR_STEP_FAILED_COMPENSATED";
  completed_at = some now;
}

abbrev pub advance : SagaStep → Saga → Saga
advance st w = record w { completed_steps = w.completed_steps ++ (st.name, st.payload) ∷ [] }

-- The loop of `execute_action_saga`, with the steps that have completed so far.
unfoldable pub execute_each :
    Environment
    → (ℕ → Answer)
    → ActionIntentRecord
    → String
    → String
    → UtcDateTime
    → List SagaStep
    → List CompletedStep
    → Saga
    → ActionLedgerRecord × Saga
unfolding compensate_steps saga_reconcile
execute_each env query i ledger_id event_id now [] completed w =
    (succeeded_entry i ledger_id now, w)
execute_each env query i ledger_id event_id now (st ∷ sts) completed w =
    let reconciled = saga_reconcile query i ledger_id event_id now w in
    let (r, w') = compensate_steps env i.tenant_id i.intent_id i.classification completed w in
    let next =
      execute_each env query i ledger_id event_id now sts
        (completed ++ triple st.name st.payload st.compensation_action ∷ []) (advance st w) in
    if st.payload.simulate_timeout
    then reconciled
    else if st.payload.simulate_failure
    then (failed_entry i ledger_id now r, w')
    else next

unfoldable pub execute_action_saga :
    Environment
    → (ℕ → Answer)
    → ActionIntentRecord
    → String
    → String
    → UtcDateTime
    → List SagaStep
    → Saga
    → ActionLedgerRecord × Saga
unfolding execute_each
execute_action_saga env query i ledger_id event_id now steps w =
    execute_each env query i ledger_id event_id now steps [] w
