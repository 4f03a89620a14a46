-- ===== src/Connectors.antt =====
-- connectors/domain.py, and the table and `transition_state` of connectors/lifecycle.py.
pub mod Lifecycle
pub mod Health
pub mod Inbox
pub mod Quarantine
pub mod Drift
mod Tests
use rev_pilot_ai.Base.{
  ℕ, ◌+◌, String, Bool, true, false, not, Option, none, some, List, [], ◌∷◌, Action, Result, ok,
  err, pure, raise, raise_if, modify, or_raise, ◌>>=◌, ◌>>◌, if◌then◌else◌, ◌==◌,
}
use rev_pilot_ai.Base.Int.{ℤ}
use rev_pilot_ai.Base.Time.{UtcDateTime}
use rev_pilot_ai.Base.Dict.{Dict, lookup, insert}

pub data ConnectorStatus : Type 0 where
  registered configured validating active degraded paused auth_expired schema_drift quarantined
        reconciliation_required deleting deleted failed :
      ConnectorStatus

-- `a == b` on the members, by their places in the class
abbrev pub rank : ConnectorStatus → ℕ
rank registered = 0
rank configured = 1
rank validating = 2
rank active = 3
rank degraded = 4
rank paused = 5
rank auth_expired = 6
rank schema_drift = 7
rank quarantined = 8
rank reconciliation_required = 9
rank deleting = 10
rank deleted = 11
rank failed = 12

abbrev pub same_status : ConnectorStatus → ConnectorStatus → Bool
same_status a b = rank a == rank b

-- `b in allowed`
abbrev pub is_in : ConnectorStatus → List ConnectorStatus → Bool
is_in a [] = false
is_in a (b ∷ bs) = if same_status a b then true else is_in a bs

unfoldable pub valid_transitions : ConnectorStatus → List ConnectorStatus
valid_transitions registered = configured ∷ deleting ∷ failed ∷ []
valid_transitions configured = validating ∷ deleting ∷ failed ∷ []
valid_transitions validating = active ∷ failed ∷ deleting ∷ []
valid_transitions active = degraded ∷ paused ∷ auth_expired ∷ schema_drift ∷ deleting ∷ failed ∷ []
valid_transitions degraded = active ∷ auth_expired ∷ paused ∷ deleting ∷ failed ∷ []
valid_transitions paused = active ∷ deleting ∷ failed ∷ []
valid_transitions auth_expired = validating ∷ configured ∷ deleting ∷ failed ∷ []
valid_transitions schema_drift = quarantined ∷ deleting ∷ failed ∷ []
valid_transitions quarantined = reconciliation_required ∷ deleting ∷ failed ∷ []
valid_transitions reconciliation_required = active ∷ deleting ∷ failed ∷ []
valid_transitions failed = configured ∷ validating ∷ deleting ∷ []
valid_transitions deleting = deleted ∷ []
valid_transitions deleted = []

-- `ConnectorNotFoundError`, `InvalidScopeError`, `InvalidStateTransitionError`
pub data ConnectorError : Type 0 where
  connector_not_found invalid_scope invalid_state_transition : ConnectorError

-- A record, without the fields that no operation reads or writes.
pub record ConnectorInstanceRecord : Type 0 where
  pub connector_id : String
  pub tenant_id : String
  pub provider_name : String
  pub provider_version : String
  pub capability_type : String
  pub auth_method : String
  pub secret_ref : Option String
  pub granted_scopes : List String
  pub cursor_position : Option String
  pub last_successful_sync_at : Option UtcDateTime
  pub sync_lag_seconds : ℤ
  pub status : ConnectorStatus
  pub quarantine_count : ℕ
  pub consecutive_errors : ℕ
  pub consecutive_rate_limits : ℕ
  pub status_reason : Option String
  pub created_at : UtcDateTime
  pub updated_at : UtcDateTime

-- `self._connectors`
abbrev pub Registry : Type 0
Registry = Dict ConnectorInstanceRecord

abbrev pub Call : Type 0 → Type 0
Call A = Action Registry ConnectorError A

-- An assignment to fields of the record that the registry holds.
unfoldable pub edit :
    String → (ConnectorInstanceRecord → ConnectorInstanceRecord) → Registry → Registry
edit connector_id f s = elim (lookup connector_id s) [
  | none ↦ s
  | some r ↦ insert connector_id (f r) s
]

unfoldable pub get_connector : String → Call ConnectorInstanceRecord
get_connector connector_id s = or_raise (lookup connector_id s) connector_not_found s

abbrev pub touched : String → UtcDateTime → ConnectorInstanceRecord → ConnectorInstanceRecord
touched reason now r = record r { status_reason = some reason; updated_at = now }

abbrev pub moved :
    ConnectorStatus → String → UtcDateTime → ConnectorInstanceRecord → ConnectorInstanceRecord
moved new reason now r = record r { status = new; status_reason = some reason; updated_at = now }

unfoldable pub transition_state : String → ConnectorStatus → String → UtcDateTime → Call (Unit {0})
transition_state connector_id new reason now = do
  r ← get_connector connector_id
  λ s.
      if same_status r.status new
      then (ok tt, edit connector_id (touched reason now) s)
      else if is_in new (valid_transitions r.status)
      then (ok tt, edit connector_id (moved new reason now) s)
      else (err invalid_state_transition, s)
