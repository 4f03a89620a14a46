-- ===== src/Connectors/Lifecycle.antt =====
-- The operations of `ConnectorLifecycleService` in connectors/lifecycle.py. An operation reads the clock
-- once; an identifier that it makes is an argument.
pub mod Follows
pub mod Edges
pub mod Requests
pub mod Steps
pub mod Operations
pub mod Single
pub mod Teardown
use rev_pilot_ai.Base.{
  ℕ, ◌+◌, String, Bool, true, false, not, ◌&&◌, Option, none, some, List, [], ◌∷◌, ok, err, pure,
  raise, raise_if, modify, ◌>>=◌, ◌>>◌, leb, if◌then◌else◌, str_eq, keep_if,
}
use rev_pilot_ai.Base.Int.{ℤ, pos}
use rev_pilot_ai.Base.Time.{UtcDateTime}
use rev_pilot_ai.Base.Dict.{lookup, insert, values}
use rev_pilot_ai.Connectors.{
  ConnectorInstanceRecord, registered, configured, validating, active, degraded, auth_expired,
  deleting, deleted, failed, same_status, invalid_scope, Registry, Call, edit, get_connector,
  transition_state,
}

-- The arguments of `register_connector`, and the identifier that `UUIDv7.generate` gives
pub record Manifest : Type 0 where
  pub connector_id : String
  pub tenant_id : String
  pub provider : String
  pub capability : String
  pub provider_version : String
  pub auth_method : String

abbrev pub new_record : Manifest → UtcDateTime → ConnectorInstanceRecord
new_record m now = record {
  connector_id = m.connector_id;
  tenant_id = m.tenant_id;
  provider_name = m.provider;
  provider_version = m.provider_version;
  capability_type = m.capability;
  auth_method = m.auth_method;
  secret_ref = none;
  granted_scopes = [];
  cursor_position = none;
  last_successful_sync_at = none;
  sync_lag_seconds = pos 0;
  status = registered;
  quarantine_count = 0;
  consecutive_errors = 0;
  consecutive_rate_limits = 0;
  status_reason = none;
  created_at = now;
  updated_at = now;
}

unfoldable pub register_connector : Manifest → UtcDateTime → Call String
register_connector m now s = (ok m.connector_id, insert m.connector_id (new_record m now) s)

unfoldable pub list_connectors : String → Registry → List ConnectorInstanceRecord
list_connectors tenant_id s = keep_if (λ c. str_eq c.tenant_id tenant_id) (values s)

abbrev pub bound : String → List String → ConnectorInstanceRecord → ConnectorInstanceRecord
bound secret_ref scopes r = record r { secret_ref = some secret_ref; granted_scopes = scopes }

abbrev pub is_empty : List String → Bool
is_empty [] = true
is_empty (x ∷ xs) = false

unfoldable pub configure_credentials : String → String → List String → UtcDateTime → Call (Unit {0})
configure_credentials connector_id secret_ref scopes now = do
  r ← get_connector connector_id
  raise_if (is_empty scopes) invalid_scope
  modify (edit connector_id (bound secret_ref scopes))
  transition_state connector_id configured "Credentials configured" now

abbrev pub no_errors : ConnectorInstanceRecord → ConnectorInstanceRecord
no_errors r = record r { consecutive_errors = 0 }

-- `probe_fn` by its answer: an exception counts as false, an absent one as true.
unfoldable pub validate_connectivity : String → Bool → UtcDateTime → Call Bool
validate_connectivity connector_id is_healthy now = do
  r ← get_connector connector_id
  transition_state connector_id validating "Starting connectivity probe" now
  if is_healthy
      then transition_state connector_id active "Connectivity and scopes verified" now
        >> (modify (edit connector_id no_errors) >> pure true)
      else transition_state connector_id failed "Connectivity probe failed" now >> pure false

abbrev pub synced : String → ℤ → UtcDateTime → ConnectorInstanceRecord → ConnectorInstanceRecord
synced cursor lag_seconds now r = record r {
  cursor_position = some cursor;
  sync_lag_seconds = lag_seconds;
  last_successful_sync_at = some now;
  consecutive_errors = 0;
  consecutive_rate_limits = 0;
  updated_at = now;
}

unfoldable pub record_sync_success : String → String → ℤ → UtcDateTime → Call (Unit {0})
record_sync_success connector_id cursor lag_seconds now = do
  r ← get_connector connector_id
  modify (edit connector_id (synced cursor lag_seconds now))

abbrev pub more_errors : ConnectorInstanceRecord → ConnectorInstanceRecord
more_errors r = record r { consecutive_errors = r.consecutive_errors + 1 }

unfoldable pub record_auth_failure : String → UtcDateTime → Call (Unit {0})
record_auth_failure connector_id now = do
  r ← get_connector connector_id
  modify (edit connector_id more_errors)
  transition_state connector_id auth_expired
      "401/403 Unauthorized received from upstream provider; sync halted" now

abbrev pub more_rate_limits : ConnectorInstanceRecord → ConnectorInstanceRecord
more_rate_limits r = record r { consecutive_rate_limits = r.consecutive_rate_limits + 1 }

unfoldable pub record_rate_limit : String → UtcDateTime → Call (Unit {0})
record_rate_limit connector_id now = do
  r ← get_connector connector_id
  modify (edit connector_id more_rate_limits)
  if leb 3 (r.consecutive_rate_limits + 1) && same_status r.status active
      then transition_state connector_id degraded
          "Consecutive rate limit (429) thresholds exceeded; backoff engaged" now
      else pure tt

abbrev pub no_limits : ConnectorInstanceRecord → ConnectorInstanceRecord
no_limits r = record r { consecutive_rate_limits = 0; consecutive_errors = 0 }

unfoldable pub record_health_recovery : String → UtcDateTime → Call (Unit {0})
record_health_recovery connector_id now = do
  r ← get_connector connector_id
  modify (edit connector_id no_limits)
  if same_status r.status degraded
      then transition_state connector_id active
          "Health probe recovered 200 OK; restored full sync rate" now
      else pure tt

abbrev pub purged : ConnectorInstanceRecord → ConnectorInstanceRecord
purged r = record r { cursor_position = none; secret_ref = none; sync_lag_seconds = pos 0 }

unfoldable pub delete_connector : String → UtcDateTime → Call (Unit {0})
delete_connector connector_id now = do
  r ← get_connector connector_id
  transition_state connector_id deleting "Connector teardown initiated" now
  modify (edit connector_id purged)
  transition_state connector_id deleted "Teardown complete; state purged" now
