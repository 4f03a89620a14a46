-- ===== src/Action/Saga/Activities.antt =====
-- action/saga/activities.py: the compensation activity and the registry that it writes. A fresh
-- identifier and a reading of the clock are taken at the number of records so far.
use rev_pilot_ai.Base.{ℕ, String, Bool, List, [], ◌∷◌, ◌++◌, length, if◌then◌else◌}
use rev_pilot_ai.Base.Time.{UtcDateTime}

pub data CompensationStatus : Type 0 where
  pending completed failed_manual_required : CompensationStatus

pub record CompensationRecord : Type 0 where
  pub record_id : String
  pub tenant_id : String
  pub intent_id : String
  pub step_name : String
  pub compensation_action : String
  pub status : CompensationStatus
  pub compensated_at : UtcDateTime

-- An entry of `paged_incidents`.
pub record Incident : Type 0 where
  pub step_name : String
  pub compensation_action : String
  pub tenant_id : String
  pub intent_id : String

-- `SagaActivityRegistry`
pub record Registry : Type 0 where
  pub compensation_records : List CompensationRecord
  pub paged_incidents : List Incident

-- `clear`
abbrev pub clear_registry : Registry → Registry
clear_registry g = record { compensation_records = []; paged_incidents = [] }

-- `UUIDv7.generate()` and `UtcDateTime.now()`
pub record Environment : Type 0 where
  pub fresh_id : ℕ → String
  pub clock : ℕ → UtcDateTime

abbrev pub compensation :
    Environment
    → String
    → String
    → String
    → String
    → CompensationStatus
    → Registry
    → CompensationRecord
compensation env step action tenant intent status g = record {
  record_id = env.fresh_id (length g.compensation_records);
  tenant_id = tenant;
  intent_id = intent;
  step_name = step;
  compensation_action = action;
  status = status;
  compensated_at = env.clock (length g.compensation_records);
}

abbrev pub file_record : CompensationRecord → Registry → Registry
file_record r g = record g { compensation_records = g.compensation_records ++ r ∷ [] }

abbrev pub page : Incident → Registry → Registry
page i g = record g { paged_incidents = g.paged_incidents ++ i ∷ [] }

unfoldable pub compensate_step_activity :
    Environment
    → String
    → String
    → String
    → String
    → Bool
    → Registry
    → CompensationRecord × Registry
compensate_step_activity env step action tenant intent simulate_failure g =
    let failed = compensation env step action tenant intent failed_manual_required g in
    let done = compensation env step action tenant intent completed g in
    let incident : Incident = record {
      step_name = step;
      compensation_action = action;
      tenant_id = tenant;
      intent_id = intent;
    } in
    if simulate_failure
    then (failed, page incident (file_record failed g))
    else (done, file_record done g)
