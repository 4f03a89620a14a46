-- ===== src/Connectors/Tests.antt =====
-- A connector in several states, an event that comes twice, and a payload in quarantine.
use rev_pilot_ai.Base.{
  ◌↔◌, ◌≢◌, All, ◌==◌, ◌≡◌, refl, ok, err, some, none, true, [], ◌∷◌, arith, Bool, ℕ,
}
use rev_pilot_ai.Base.Dict.{lookup, insert, values}
use rev_pilot_ai.Connectors.{
  ConnectorStatus, active, deleted, configured, ConnectorInstanceRecord, Registry,
  invalid_state_transition,
}
use rev_pilot_ai.Connectors.Lifecycle.{Manifest, new_record, configure_credentials, bound}
use rev_pilot_ai.Connectors.Lifecycle.Edges.{◌⟶◌}
use rev_pilot_ai.Connectors.Lifecycle.Follows.{Reaches}
use rev_pilot_ai.Connectors.Lifecycle.Requests.{deletes, goals_at, perform}
use rev_pilot_ai.Connectors.Lifecycle.Operations.{perform-Reaches}
use rev_pilot_ai.Connectors.Lifecycle.Single.{apart}
use rev_pilot_ai.Connectors.Lifecycle.Teardown.{configure_credentials-writes}
use rev_pilot_ai.Connectors.Inbox.{
  target_entity, Incoming, InboxState, duplicate, record_incoming_event, record_all, entity_key,
}
use rev_pilot_ai.Connectors.Inbox.Order.{record_all-latest, IsCurrent}
use rev_pilot_ai.Connectors.Inbox.Repeats.{record_incoming_event-duplicate}
use rev_pilot_ai.Connectors.Drift.{Kind, Schema, evaluate_payload}
use rev_pilot_ai.Connectors.Drift.Breaking.{Present, Fitting, evaluate_payload_iff}
use rev_pilot_ai.Connectors.Quarantine.{
  all_cleared, get_quarantine_records, Diversion, breaking, QuarantineState, divert_to_quarantine,
  reprocess_quarantine,
}
use rev_pilot_ai.Connectors.Quarantine.Clearing.{
  IsActiveWith, divert_to_quarantine-reprocess_quarantine,
}

abbrev stripe : Manifest
stripe = record {
  connector_id = "con_1";
  tenant_id = "ten_1";
  provider = "stripe";
  capability = "billing";
  provider_version = "v1";
  auth_method = "oauth2_client_credentials";
}

abbrev at_status : ConnectorStatus → ConnectorInstanceRecord
at_status s = record (new_record stripe 5) { status = s }

abbrev holding : ConnectorStatus → Registry
holding s = ("con_1", at_status s) ∷ []

held : (s : ConnectorStatus) → lookup "con_1" (holding s) ≡ some (at_status s)
unfolding lookup
held s = refl

perform-Reaches_example :
    (r' : ConnectorInstanceRecord) × ((lookup "con_1"
          (perform (deletes "con_1") 9 (holding active)).1
        ≡ some r')
      × (Reaches (goals_at (deletes "con_1") "con_1" active) active r'.status
          × (r'.tenant_id ≡ "ten_1")))
perform-Reaches_example =
    perform-Reaches (deletes "con_1") 9 (holding active) "con_1" (at_status active) tt (held active)

no_way_back : ¬ (deleted ⟶ configured)
no_way_back e = elim e [ ]

configure_credentials-writes_example :
    configure_credentials "con_1" "sec_ref_2" ("read" ∷ []) 9 (holding deleted) ≡ (
      err invalid_state_transition,
      insert "con_1" (bound "sec_ref_2" ("read" ∷ []) (at_status deleted)) (holding deleted),
    )
configure_credentials-writes_example =
    configure_credentials-writes "con_1" "sec_ref_2" "read" [] 9 (holding deleted)
      (at_status deleted) (held deleted) (apart deleted configured (omega arith)) no_way_back

abbrev second_time : ℕ → Bool
second_time k = k == 1

abbrev event : Incoming
event = record {
  tenant_id = "ten_1";
  connector_id = "con_1";
  external_event_id = "evt_7";
  raw_payload = ("id", "cus_1") ∷ [];
  event_timestamp = some 50;
  entity_id = none;
}

abbrev late_event : Incoming
late_event = record event { external_event_id = "evt_6"; event_timestamp = some 40 }

abbrev empty_inbox : InboxState
empty_inbox = record { inbox_registry = []; canonical_entity_state = [] }

record_incoming_event-duplicate_example :
    let first = record_incoming_event event "id_1" 60 empty_inbox in
    let later = record_all ((late_event, ("id_2", 65)) ∷ []) first.1 in
    let again = record_incoming_event event "id_3" 70 later in
    (again.1 ≡ later) × ((again.0.status ≡ duplicate) × (again.0.event_id ≡ first.0.event_id))
record_incoming_event-duplicate_example =
    record_incoming_event-duplicate event event "id_1" "id_3" 60 70
      ((late_event, ("id_2", 65)) ∷ []) empty_inbox (refl, (refl, refl))

names_customer : target_entity event ≡ some "cus_1"
unfolding lookup
names_customer = refl

record_all-latest_example :
    IsCurrent
      (entity_key "ten_1" "cus_1")
      50
      (record_all ((event, ("id_1", 60)) ∷ (late_event, ("id_2", 70)) ∷ []) empty_inbox)
unfolding lookup
record_all-latest_example =
    record_all-latest event "cus_1" "id_1" 60 ((late_event, ("id_2", 70)) ∷ []) empty_inbox refl
      names_customer

abbrev payload : Diversion
payload = record {
  quarantine_id = "qua_1";
  tenant_id = "ten_1";
  connector_id = "con_1";
  payload_hash = "9f86d081884c7d65";
  classification = breaking;
  reasons = "Missing mandatory field 'id'" ∷ [];
}

abbrev store_of : ConnectorStatus → QuarantineState
store_of s = record { lifecycle_service = some (holding s); quarantine_records = [] }

nothing_open : all_cleared (get_quarantine_records "con_1" (store_of active)) ≡ true
unfolding get_quarantine_records values
nothing_open = refl

divert_to_quarantine-reprocess_quarantine_example :
    let s' = (divert_to_quarantine payload 9 (store_of active)).1 in
    ((reprocess_quarantine "qua_1" "1.1.0" 20 s').0 ≡ ok tt)
    × IsActiveWith "con_1" 1 (reprocess_quarantine "qua_1" "1.1.0" 20 s').1
divert_to_quarantine-reprocess_quarantine_example =
    divert_to_quarantine-reprocess_quarantine payload "1.1.0" 9 20 (store_of active)
      (holding active) (at_status active) refl (held active) refl nothing_open

abbrev schema : Schema
schema = record {
  required_fields = ("id", Kind.str ∷ []) ∷ [];
  optional_fields = ("amount", Kind.int ∷ Kind.float ∷ []) ∷ [];
}

evaluate_payload_iff_example :
    ((evaluate_payload "con_1"
        (("id", Kind.str) ∷ ("amount", Kind.bool) ∷ [])
        schema).classification
      ≢ breaking)
    ↔ (All (Present (("id", Kind.str) ∷ ("amount", Kind.bool) ∷ [])) schema.required_fields
        × All (Fitting (("id", Kind.str) ∷ ("amount", Kind.bool) ∷ [])) schema.optional_fields)
evaluate_payload_iff_example =
    evaluate_payload_iff "con_1" (("id", Kind.str) ∷ ("amount", Kind.bool) ∷ []) schema
