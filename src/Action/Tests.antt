-- ===== src/Action/Tests.antt =====
-- An intent, two attempts, an inquiry that is answered late, and a saga of three steps.
use rev_pilot_ai.Base.{
  ℕ, String, ◌≡◌, refl, true, false, none, some, List, [], ◌∷◌, ◌++◌, reverse, ok, arith,
  if◌then◌else◌, ◌==◌, ◌+◌, Bool,
}
use rev_pilot_ai.Base.Dict.{values, lookup, insert, inner, find, store}
use rev_pilot_ai.Approval.Domain.{ApprovalRequestRecord, approved, low}
use rev_pilot_ai.Action.Domain.{
  ActionIntentRecord, ActionIntentStatus, ActionLedgerRecord, compensatable, irreversible, success,
  compensated,
}
use rev_pilot_ai.Action.Repository.{
  ActionStore, save_intent, get_ledger, get_by_idempotency_key, save_ledger, get_intent,
  update_intent, list_by_intent,
}
use rev_pilot_ai.Action.Ledger.{
  create_intent, new_intent, new_attempt, Completion, record_attempt_start,
}
use rev_pilot_ai.Action.Ledger.Calls.{LedgerCall, starts, perform_calls, IsNew}
use rev_pilot_ai.Action.Ledger.Idempotency.{create_intent-idempotent}
use rev_pilot_ai.Action.Ledger.Attempts.{IsNumbered, record_attempt_start-IsNumbered}
use rev_pilot_ai.Action.Saga.Reconciliation.{confirmed, Answer, returns, raises, Manager}
use rev_pilot_ai.Action.Saga.Activities.{CompensationRecord, Environment}
use rev_pilot_ai.Action.Saga.Workflow.{SagaStep, Saga, compensate_steps, execute_action_saga}
use rev_pilot_ai.Action.Saga.Rollback.{Rolled, Filed, compensate_steps-Rolled}
use rev_pilot_ai.Action.Saga.Outcome.{completed_of, execute_action_saga-failure}

abbrev approval : ApprovalRequestRecord
approval = record {
  approval_id = "a1";
  tenant_id = "t1";
  decision_id = "d1";
  investigation_id = none;
  action_type = "email_offer";
  action_version = "1.0.0";
  target_customer_id = "c1";
  target_entity_refs = "c1" ∷ [];
  action_payload = "{}";
  payload_digest = "{}";
  policy_digest = "policy";
  estimated_cost_usd = 100;
  reserved_budget_usd = 100;
  risk_tier = low;
  required_approval_tier = 1;
  requester_principal_id = none;
  approver_principal_id = some "boss";
  approval_timestamp = some 2000;
  rejection_reason = none;
  revocation_reason = none;
  expiry_time = 9000;
  status = approved;
  decision_digest = "dd";
  correlation_id = "a1";
  causation_id = "d1";
  created_at = 1000;
  superseded_by = none;
}

abbrev empty : ActionStore
empty = record { intents = []; idempotency_index = []; ledger = [] }

abbrev intent : ActionIntentRecord
intent = new_intent "t1" approval "key" compensatable false "i1" 3000

abbrev filed : ActionStore
filed = record {
  intents = ("t1", ("i1", intent) ∷ []) ∷ [];
  idempotency_index = ("t1", ("key", "i1") ∷ []) ∷ [];
  ledger = [];
}

creating :
    create_intent "t1" approval "key" compensatable false "i1" 3000 empty ≡ (ok intent, filed)
unfolding create_intent get_by_idempotency_key save_intent lookup insert inner find store
creating = refl

-- The attempt that is started between the two calls makes the intent DISPATCHED.
abbrev an_attempt : List LedgerCall
an_attempt = starts "t1" "i1" "key" "mail" "digest" "l1" 3500 ∷ []

i1-IsNew : IsNew "t1" "i1" empty
unfolding find inner lookup
i1-IsNew = (refl, refl)

create_intent-idempotent_example :
    (st : ActionIntentStatus) × (create_intent "t1" approval "key" irreversible true "i2" 4000
        (perform_calls an_attempt filed)
      ≡ (ok (record intent { status = st }), perform_calls an_attempt filed))
create_intent-idempotent_example =
    create_intent-idempotent [] an_attempt "t1" approval approval "key" compensatable irreversible
      false true "i1" "i2" 3000 4000 filed intent tt i1-IsNew creating (tt, tt) refl

abbrev first : ActionLedgerRecord
first = new_attempt "t1" "i1" 1 "key" "mail" "digest" "l1" 5000

abbrev tried : ActionStore
tried = record filed { ledger = ("t1", ("l1", first) ∷ []) ∷ [] }

filed-IsNumbered : IsNumbered filed
unfolding inner lookup values
filed-IsNumbered t i = tt

no_entry : get_ledger "t1" "l1" filed ≡ none
unfolding get_ledger find inner lookup
no_entry = refl

record_attempt_start-IsNumbered_example :
    IsNumbered (record_attempt_start "t1" "i1" "key" "mail" "digest" "l1" 5000 filed).1
record_attempt_start-IsNumbered_example =
    record_attempt_start-IsNumbered "t1" "i1" "key" "mail" "digest" "l1" 5000 filed no_entry
      filed-IsNumbered

abbrev delivered : Completion
delivered = record {
  status = success;
  response_digest = some "r";
  http_status_code = some 200;
  tx_id = some "tx";
  error_code = none;
}

abbrev begun : ActionStore
begun = (record_attempt_start "t1" "i1" "key" "mail" "digest" "l1" 5000 filed).1

begun-IsNumbered : IsNumbered begun
begun-IsNumbered =
    record_attempt_start-IsNumbered "t1" "i1" "key" "mail" "digest" "l1" 5000 filed no_entry
      filed-IsNumbered

begun-own :
    (r : ActionLedgerRecord)
    → get_ledger "t1" "l1" begun ≡ some r
    → (r.tenant_id ≡ "t1") × (r.ledger_id ≡ "l1")
unfolding record_attempt_start get_ledger save_ledger get_intent update_intent list_by_intent find
    inner store lookup insert values
begun-own r h = ground arith

abbrev answers : ℕ → Answer
answers n =
    if n == 1
    then raises "no route"
    else returns (record { status = confirmed; provider_tx_id = some "tx"; details = "found" })

abbrev quiet : Manager
quiet = record { emitted_outbox_events = []; inquiry_history = [] }

abbrev env : Environment
env = record { fresh_id = λ n. "id"; clock = λ n. 8000 + n }

abbrev step : String → Bool → Bool → Bool → SagaStep
step name times_out fails sticks = record {
  name = name;
  compensation_action = "undo";
  payload = record {
    simulate_timeout = times_out;
    simulate_failure = fails;
    simulate_compensation_failure = sticks;
    rest = "";
  };
  is_irreversible = false;
}

abbrev hold_stock : SagaStep
hold_stock = step "hold" false false true

abbrev charge : SagaStep
charge = step "charge" false false false

abbrev fresh : Saga
fresh = record {
  compensation_history = [];
  completed_steps = [];
  registry = record { compensation_records = []; paged_incidents = [] };
  manager = quiet;
}

abbrev both : List SagaStep
both = hold_stock ∷ charge ∷ []

compensate_steps-Rolled_example :
    (rs : List CompensationRecord) × ((compensate_steps env "t1" "i1" compensatable
        (completed_of both)
        fresh).0
      ≡ ok rs)
    × Rolled (reverse (completed_of both)) rs
    × Filed fresh (compensate_steps env "t1" "i1" compensatable (completed_of both) fresh).1 rs
compensate_steps-Rolled_example =
    compensate_steps-Rolled env "t1" "i1" compensatable (completed_of both) fresh refl

execute_action_saga-failure_example :
    let out =
      execute_action_saga env answers intent "l1" "e1" 7000
        (both ++ step "ship" false true false ∷ [])
        fresh in
    (rs : List CompensationRecord) × Rolled (reverse (completed_of both)) rs
    × Filed fresh out.1 rs
    × (out.0.execution_status ≡ compensated)
execute_action_saga-failure_example =
    execute_action_saga-failure env answers intent "l1" "e1" 7000 both
      (step "ship" false true false) [] fresh ((refl, refl), ((refl, refl), tt)) refl refl refl
