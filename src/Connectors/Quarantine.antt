-- ===== src/Connectors/Quarantine.antt =====
-- connectors/ingestion/quarantine.py. The digest of a payload, which is SHA-256 of its JSON, is an
-- argument of the call, as are the new identifier and the time.
pub mod Clearing
use rev_pilot_ai.Base.{
  first, ℕ, zero, suc, ◌+◌, String, Bool, true, false, not, ◌&&◌, Option, none, some, List, [], ◌∷◌,
  Action, Result, ok, err, pure, raise, raise_if, modify, or_raise, ◌>>=◌, ◌>>◌, if◌then◌else◌,
  str_eq, prefixed, keep_if,
}
use rev_pilot_ai.Base.Time.{UtcDateTime}
use rev_pilot_ai.Base.Dict.{Dict, lookup, insert, values}
use rev_pilot_ai.Connectors.{
  ConnectorStatus, active, schema_drift, quarantined, reconciliation_required, ConnectorError,
  ConnectorInstanceRecord, Registry, Call, edit, get_connector, transition_state,
}

-- `DriftClassification` of ingestion/drift.py
pub data DriftClassification : Type 0 where
  compatible benign breaking : DriftClassification

pub record QuarantineRecord : Type 0 where
  pub quarantine_id : String
  pub tenant_id : String
  pub connector_id : String
  pub payload_hash : String
  pub classification : DriftClassification
  pub reasons : List String
  pub quarantined_at : UtcDateTime
  pub reprocessed_at : Option UtcDateTime
  pub mapping_version : String

pub record QuarantineState : Type 0 where
  pub lifecycle_service : Option Registry
  pub quarantine_records : Dict QuarantineRecord

-- `ValueError`, or what the lifecycle service raises
pub data QuarantineError : Type 0 where
  record_not_found : QuarantineError
  lifecycle : ConnectorError → QuarantineError

abbrev pub Step : Type 0 → Type 0
Step A = Action QuarantineState QuarantineError A

abbrev pub lifted : Result ConnectorError (Unit {0}) → Result QuarantineError (Unit {0})
lifted (ok u) = ok tt
lifted (err e) = err (lifecycle e)

-- `if self.lifecycle_service: …`
unfoldable pub with_lifecycle : Call (Unit {0}) → Step (Unit {0})
with_lifecycle m s = elim s.lifecycle_service [
  | none ↦ (ok tt, s)
  | some c ↦ (lifted (m c).0, record s { lifecycle_service = some (m c).1 })
]

-- The arguments of `divert_to_quarantine`, with the new identifier and the digest
pub record Diversion : Type 0 where
  pub quarantine_id : String
  pub tenant_id : String
  pub connector_id : String
  pub payload_hash : String
  pub classification : DriftClassification
  pub reasons : List String

abbrev pub new_entry : Diversion → UtcDateTime → QuarantineRecord
new_entry d now = record {
  quarantine_id = d.quarantine_id;
  tenant_id = d.tenant_id;
  connector_id = d.connector_id;
  payload_hash = d.payload_hash;
  classification = d.classification;
  reasons = d.reasons;
  quarantined_at = now;
  reprocessed_at = none;
  mapping_version = "1.0.0";
}

abbrev pub put_entry : String → QuarantineRecord → QuarantineState → QuarantineState
put_entry quarantine_id q s = record s {
  quarantine_records = insert quarantine_id q s.quarantine_records;
}

abbrev pub count_one : ConnectorInstanceRecord → ConnectorInstanceRecord
count_one r = record r { quarantine_count = r.quarantine_count + 1 }

-- `'; '.join(reasons)`
abbrev pub joined : List String → String
joined [] = ""
joined (x ∷ []) = x
joined (x ∷ y ∷ ys) = prefixed x (prefixed "; " (joined (y ∷ ys)))

abbrev pub drift_reason : Diversion → String
drift_reason d = prefixed "Breaking schema drift: " (joined d.reasons)

abbrev pub stored_reason : Diversion → String
stored_reason d =
    prefixed "Payload " (Prim.Native.String.◌++◌ (first 12 d.payload_hash) " stored in quarantine")

unfoldable pub hold_connector : Diversion → UtcDateTime → Call (Unit {0})
hold_connector d now = do
  c ← get_connector d.connector_id
  modify (edit d.connector_id count_one)
  transition_state d.connector_id schema_drift (drift_reason d) now
  transition_state d.connector_id quarantined (stored_reason d) now

unfoldable pub divert_to_quarantine : Diversion → UtcDateTime → Step String
divert_to_quarantine d now = do
  modify (put_entry d.quarantine_id (new_entry d now))
  with_lifecycle (hold_connector d now)
  pure d.quarantine_id

unfoldable pub get_quarantine_records : String → QuarantineState → List QuarantineRecord
get_quarantine_records connector_id s =
    keep_if (λ r. str_eq r.connector_id connector_id) (values s.quarantine_records)

abbrev pub reprocessed : String → UtcDateTime → QuarantineRecord → QuarantineRecord
reprocessed new_mapping_version now q = record q {
  reprocessed_at = some now;
  mapping_version = new_mapping_version;
}

abbrev pub is_cleared : Option UtcDateTime → Bool
is_cleared none = false
is_cleared (some t) = true

-- `all(r.reprocessed_at is not None for r in records)`
abbrev pub all_cleared : List QuarantineRecord → Bool
all_cleared [] = true
all_cleared (q ∷ qs) = is_cleared q.reprocessed_at && all_cleared qs

unfoldable pub release_connector : String → String → UtcDateTime → Call (Unit {0})
release_connector connector_id new_mapping_version now = do
  transition_state connector_id reconciliation_required
      (prefixed "All quarantined events reprocessed with mapping " new_mapping_version) now
  transition_state connector_id active "Reconciliation completed; sync restored to normal polling"
      now

unfoldable pub reprocess_quarantine : String → String → UtcDateTime → Step (Unit {0})
reprocess_quarantine quarantine_id new_mapping_version now = do
  q ← λ s. or_raise (lookup quarantine_id s.quarantine_records) record_not_found s
  modify (put_entry quarantine_id (reprocessed new_mapping_version now q))
  λ s.
      if all_cleared (get_quarantine_records q.connector_id s)
      then with_lifecycle (release_connector q.connector_id new_mapping_version now) s
      else (ok tt, s)
