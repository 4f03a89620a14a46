-- ===== src/Connectors/Lifecycle/Requests.antt =====
-- The calls of connectors/lifecycle.py that write, and the statuses that each may set.
use rev_pilot_ai.Base.{
  if◌then◌else◌, [], ◌∷◌, String, none, Bool, true, false, ◌≡◌, List, ◌>>◌, str_eq, pure,
}
use rev_pilot_ai.Base.Int.{ℤ}
use rev_pilot_ai.Base.Time.{UtcDateTime}
use rev_pilot_ai.Base.Dict.{lookup}
use rev_pilot_ai.Connectors.{
  same_status, transition_state, Registry, ConnectorStatus, configured, validating, active,
  degraded, auth_expired, deleting, deleted, failed, Call,
}
use rev_pilot_ai.Connectors.Lifecycle.{
  Manifest, register_connector, configure_credentials, validate_connectivity, record_sync_success,
  record_auth_failure, record_rate_limit, record_health_recovery, delete_connector,
}

-- One call of the service.
pub data Request : Type 0 where
  registers : Manifest → Request
  configures : String → String → List String → Request
  validates : String → Bool → Request
  transits : String → ConnectorStatus → String → Request
  syncs : String → String → ℤ → Request
  fails_auth : String → Request
  hits_limit : String → Request
  recovers : String → Request
  deletes : String → Request

abbrev pub discard : {A : Type 0} → Call A → Call (Unit {0})
discard m = m >> pure tt

unfoldable pub perform : Request → UtcDateTime → Call (Unit {0})
perform (registers m) now = discard (register_connector m now)
perform (configures c secret_ref scopes) now = configure_credentials c secret_ref scopes now
perform (validates c is_healthy) now = discard (validate_connectivity c is_healthy now)
perform (transits c new reason) now = transition_state c new reason now
perform (syncs c cursor lag) now = record_sync_success c cursor lag now
perform (fails_auth c) now = record_auth_failure c now
perform (hits_limit c) now = record_rate_limit c now
perform (recovers c) now = record_health_recovery c now
perform (deletes c) now = delete_connector c now

-- The identifier that a registration makes is new.
abbrev pub IsFresh : Request → Registry → Type 0
IsFresh (registers m) s = lookup m.connector_id s ≡ none
IsFresh _ s = Unit {0}

-- The connector that a call names, and the statuses that it may set.
abbrev pub subject : Request → String
subject (registers m) = m.connector_id
subject (configures c _ _) = c
subject (validates c _) = c
subject (transits c _ _) = c
subject (syncs c _ _) = c
subject (fails_auth c) = c
subject (hits_limit c) = c
subject (recovers c) = c
subject (deletes c) = c

abbrev pub goals : Request → ConnectorStatus → List ConnectorStatus
goals (registers _) a = []
goals (configures _ _ _) a = configured ∷ []
goals (validates _ true) a = validating ∷ active ∷ []
goals (validates _ false) a = validating ∷ failed ∷ []
goals (transits _ new _) a = new ∷ []
goals (syncs _ _ _) a = []
goals (fails_auth _) a = auth_expired ∷ []
goals (hits_limit _) a = if same_status a active then degraded ∷ [] else []
goals (recovers _) a = if same_status a degraded then active ∷ [] else []
goals (deletes _) a = deleting ∷ deleted ∷ []

-- The statuses that a call may set on the connector `j`, which stands at `a`: none, unless it names it.
abbrev pub goals_at : Request → String → ConnectorStatus → List ConnectorStatus
goals_at q j a = if str_eq (subject q) j then goals q a else []
