-- ===== src/Connectors/Health.antt =====
-- connectors/health.py. `canary k` is the answer of the probe at attempt k, false for an exception; the
-- lifecycle service may be absent. Latencies are left out.
pub mod Probes
use rev_pilot_ai.Base.{
  ℕ, zero, suc, ◌+◌, ◌-◌, String, Bool, true, false, Option, none, some, Result, ok, err, Action,
  pure, modify, ◌>>=◌, ◌>>◌, if◌then◌else◌,
}
use rev_pilot_ai.Base.Int.{ℤ, pos}
use rev_pilot_ai.Base.Time.{UtcDateTime}
use rev_pilot_ai.Connectors.{
  ConnectorError, Registry, Call, ConnectorInstanceRecord, get_connector, edit,
}
use rev_pilot_ai.Connectors.Lifecycle.{record_health_recovery}
use Prim.Native.Nat.{◌/◌}

pub data HealthStatus : Type 0 where
  healthy degraded unhealthy unknown : HealthStatus

pub record HealthProbeResult : Type 0 where
  pub connector_id : String
  pub status : HealthStatus
  pub last_probe_time : UtcDateTime
  pub retry_count : ℕ

abbrev pub recover : Bool → String → UtcDateTime → Call (Unit {0})
recover true connector_id now = record_health_recovery connector_id now
recover false connector_id now = pure tt

-- The body of the `try`: whether it reaches its `return`.
unfoldable pub attempt : Bool → Bool → String → UtcDateTime → Registry → Bool × Registry
attempt false is_linked connector_id now s = (false, s)
attempt true is_linked connector_id now s =
    let (r, s') = recover is_linked connector_id now s in
    elim r [ ok u ↦ (true, s') | err e ↦ (false, s') ]

abbrev pub probe_result : HealthStatus → ℕ → String → UtcDateTime → HealthProbeResult
probe_result status retries connector_id now = record {
  connector_id = connector_id;
  status = status;
  last_probe_time = now;
  retry_count = retries;
}

-- The `while` loop, with the attempts that are left after this one.
unfoldable pub probe_from :
    (ℕ → Bool) → Bool → String → UtcDateTime → ℕ → ℕ → Registry → HealthProbeResult × Registry
probe_from canary is_linked connector_id now zero retries s =
    let (is_done, s') = attempt (canary retries) is_linked connector_id now s in
    if is_done
    then (probe_result healthy retries connector_id now, s')
    else (probe_result unhealthy retries connector_id now, s')
probe_from canary is_linked connector_id now (suc left) retries s =
    let (is_done, s') = attempt (canary retries) is_linked connector_id now s in
    let rest = probe_from canary is_linked connector_id now left (retries + 1) s' in
    if is_done then (probe_result healthy retries connector_id now, s') else rest

unfoldable pub probe_health :
    (ℕ → Bool) → Bool → ℕ → String → UtcDateTime → Registry → HealthProbeResult × Registry
probe_health canary is_linked max_retries connector_id now s =
    probe_from canary is_linked connector_id now max_retries 0 s

abbrev lagging : ℤ → UtcDateTime → ConnectorInstanceRecord → ConnectorInstanceRecord
lagging lag now r = record r { sync_lag_seconds = lag; updated_at = now }

-- `max(0, int(now - upstream))`
unfoldable pub lag_between : UtcDateTime → UtcDateTime → ℕ
lag_between upstream now = (now - upstream) / 1000000

unfoldable pub calculate_sync_lag : Bool → String → UtcDateTime → UtcDateTime → Call ℕ
calculate_sync_lag false connector_id upstream now = pure (lag_between upstream now)
calculate_sync_lag true connector_id upstream now = do
  r ← get_connector connector_id
  modify (edit connector_id (lagging (pos (lag_between upstream now)) now))
  pure (lag_between upstream now)
