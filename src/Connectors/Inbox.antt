-- ===== src/Connectors/Inbox.antt =====
-- connectors/ingestion/inbox.py. A payload is a dict of texts. The new identifier and the time of a call
-- are arguments.
pub mod Repeats
pub mod Order
use rev_pilot_ai.Base.{
  List, [], ◌∷◌, String, Bool, true, false, Option, none, some, ok, pure, ◌>>=◌, ◌>>◌, ltb,
  if◌then◌else◌, str_eq, prefixed, List,
}
use rev_pilot_ai.Base.Time.{UtcDateTime}
use rev_pilot_ai.Base.Dict.{Dict, lookup, insert}

pub data InboxStatus : Type 0 where
  received processed duplicate quarantined ignored_out_of_order : InboxStatus

pub record InboxReceipt : Type 0 where
  pub event_id : String
  pub external_event_id : String
  pub tenant_id : String
  pub connector_id : String
  pub status : InboxStatus
  pub is_duplicate : Bool
  pub received_at : UtcDateTime
  pub processed_at : Option UtcDateTime

abbrev pub Payload : Type 0
Payload = Dict String

pub record InboxState : Type 0 where
  pub inbox_registry : Dict InboxReceipt
  pub canonical_entity_state : Dict (UtcDateTime × Payload)

-- The arguments of `record_incoming_event`.
pub record Incoming : Type 0 where
  pub tenant_id : String
  pub connector_id : String
  pub external_event_id : String
  pub raw_payload : Payload
  pub event_timestamp : Option UtcDateTime
  pub entity_id : Option String

unfoldable pub dedup_key : Incoming → String
dedup_key e =
    prefixed e.tenant_id (prefixed ":" (prefixed e.connector_id (prefixed ":" e.external_event_id)))

unfoldable pub entity_key : String → String → String
entity_key tenant_id entity_id = prefixed tenant_id (prefixed ":" entity_id)

-- `a or b`, where an empty text is false
abbrev or_text : Option String → Option String → Option String
or_text none b = b
or_text (some a) b = if str_eq a "" then b else some a

abbrev pub or_now : Option UtcDateTime → UtcDateTime → UtcDateTime
or_now none now = now
or_now (some t) now = t

abbrev pub target_entity : Incoming → Option String
target_entity e =
    or_text e.entity_id
      (or_text (lookup "id" e.raw_payload) (or_text (lookup "entity_id" e.raw_payload) none))

abbrev pub new_receipt : InboxStatus → Incoming → String → UtcDateTime → InboxReceipt
new_receipt status e event_id now = record {
  event_id = event_id;
  external_event_id = e.external_event_id;
  tenant_id = e.tenant_id;
  connector_id = e.connector_id;
  status = status;
  is_duplicate = false;
  received_at = now;
  processed_at = some now;
}

abbrev pub duplicate_receipt : InboxReceipt → Incoming → UtcDateTime → InboxReceipt
duplicate_receipt existing e now = record {
  event_id = existing.event_id;
  external_event_id = e.external_event_id;
  tenant_id = e.tenant_id;
  connector_id = e.connector_id;
  status = duplicate;
  is_duplicate = true;
  received_at = existing.received_at;
  processed_at = some now;
}

abbrev pub register : Incoming → InboxReceipt → InboxState → InboxReceipt × InboxState
register e receipt s =
    (receipt, record s { inbox_registry = insert (dedup_key e) receipt s.inbox_registry })

abbrev pub set_canonical : String → UtcDateTime → Payload → InboxState → InboxState
set_canonical key ts payload s = record s {
  canonical_entity_state = insert key (ts, payload) s.canonical_entity_state;
}

-- `ev_time < last_ts`, where there is an entry
abbrev pub is_stale : UtcDateTime → Option (UtcDateTime × Payload) → Bool
is_stale ev_time none = false
is_stale ev_time (some (last_ts, payload)) = ltb ev_time last_ts

-- The part of the call behind the check for duplicates.
unfoldable pub ingest :
    Incoming → Option String → String → UtcDateTime → InboxState → InboxReceipt × InboxState
ingest e none event_id now s = register e (new_receipt processed e event_id now) s
ingest e (some entity) event_id now s =
    let key = entity_key e.tenant_id entity in
    let ev_time = or_now e.event_timestamp now in
    if is_stale ev_time (lookup key s.canonical_entity_state)
    then register e (new_receipt ignored_out_of_order e event_id now) s
    else register e (new_receipt processed e event_id now)
        (set_canonical key ev_time e.raw_payload s)

unfoldable pub record_incoming_event :
    Incoming → String → UtcDateTime → InboxState → InboxReceipt × InboxState
record_incoming_event e event_id now s = elim (lookup (dedup_key e) s.inbox_registry) [
  | some existing ↦ (duplicate_receipt existing e now, s)
  | none ↦ ingest e (target_entity e) event_id now s
]

unfoldable pub get_canonical_state : String → String → InboxState → Option Payload
get_canonical_state tenant_id entity_id s =
    elim (lookup (entity_key tenant_id entity_id) s.canonical_entity_state) [
      | none ↦ none
      | some (ts, payload) ↦ some payload
    ]

-- Calls one after another, each with its identifier and its time.
abbrev pub record_all : List (Incoming × (String × UtcDateTime)) → InboxState → InboxState
record_all [] s = s
record_all ((e, (event_id, now)) ∷ es) s = record_all es (record_incoming_event e event_id now s).1
