-- ===== src/Connectors/Lifecycle/Steps.antt =====
-- What each operation of connectors/lifecycle.py does with the status of every registered connector.
use rev_pilot_ai.Base.{
  if_cases, leb, ◌+◌, ◌&&◌, if◌then◌else◌, String, Bool, true, false, ◌≡◌, inl, arith, List, refl,
  Keeps-raise_if, Keeps, Keeps-bind, Keeps-pure, raise_if, ◌>>◌, pure, some, modify,
}
use rev_pilot_ai.Base.Int.{ℤ}
use rev_pilot_ai.Base.Time.{UtcDateTime}
use rev_pilot_ai.Base.Dict.{lookup}
use rev_pilot_ai.Connectors.{
  same_status, is_in, transition_state, Registry, ConnectorStatus, configured, validating, active,
  degraded, auth_expired, deleting, deleted, failed, ConnectorError, Call, invalid_scope,
  ConnectorInstanceRecord, edit,
}
use rev_pilot_ai.Connectors.Lifecycle.{
  configure_credentials, validate_connectivity, record_sync_success, record_auth_failure,
  record_rate_limit, record_health_recovery, delete_connector, bound, is_empty, no_errors, synced,
  more_errors, more_rate_limits, no_limits, purged,
}
use rev_pilot_ai.Connectors.Lifecycle.Follows.{
  reads_base-Follows, Follows, stays, transition_state-Follows, reads-Follows, edits-Follows,
  transits-Follows, nothing-Follows, quiet-Follows,
}
use rev_pilot_ai.Connectors.Lifecycle.Requests.{discard}

pub same : (ts : String → List ConnectorStatus) (s : Registry) → Follows s ts s
same ts s j r h = (r, (h, (stays, refl)))

module _ (base : Registry) (ts : String → List ConnectorStatus) where
  pub discard-Follows :
      {A : Type 0} (m : Call A) → Keeps (Follows base ts) m → Keeps (Follows base ts) (discard m)
  discard-Follows m kept = Keeps-bind (Follows base ts) m _ kept (λ _. nothing-Follows base ts)

  pub configure_credentials-Follows :
      (c secret_ref : String) (scopes : List String) (now : UtcDateTime)
      → is_in configured (ts c) ≡ true
      → Keeps (Follows base ts) (configure_credentials c secret_ref scopes now)
  unfolding configure_credentials
  configure_credentials-Follows c secret_ref scopes now g0 = reads-Follows base ts c _ (λ r.
      Keeps-bind (Follows base ts) (raise_if (is_empty scopes) invalid_scope) _
        (Keeps-raise_if (Follows base ts) ConnectorError (is_empty scopes) invalid_scope)
        (λ _.
          edits-Follows base ts c (bound secret_ref scopes) _ (λ x. (refl, inl refl))
            (transition_state-Follows base ts c configured "Credentials configured" now g0)))

  pub validate_connectivity-Follows :
      (c : String) (is_healthy : Bool) (now : UtcDateTime)
      → is_in validating (ts c) ≡ true
      → is_in (if is_healthy then active else failed) (ts c) ≡ true
      → Keeps (Follows base ts) (validate_connectivity c is_healthy now)
  unfolding validate_connectivity
  validate_connectivity-Follows c true now g0 g1 = reads-Follows base ts c _ (λ r.
      transits-Follows base ts c validating "Starting connectivity probe" now _ g0 (
        transits-Follows base ts c active "Connectivity and scopes verified" now _ g1 (
          edits-Follows base ts c no_errors _ (λ x. (refl, inl refl))
            (Keeps-pure (Follows base ts) ConnectorError true))))
  validate_connectivity-Follows c false now g0 g1 = reads-Follows base ts c _ (λ r.
      transits-Follows base ts c validating "Starting connectivity probe" now _ g0 (
        transits-Follows base ts c failed "Connectivity probe failed" now _ g1
          (Keeps-pure (Follows base ts) ConnectorError false)))

  pub record_sync_success-Follows :
      (c cursor : String) (lag : ℤ) (now : UtcDateTime)
      → Keeps (Follows base ts) (record_sync_success c cursor lag now)
  unfolding record_sync_success
  record_sync_success-Follows c cursor lag now =
      reads-Follows base ts c _
        (λ r. quiet-Follows base ts c (synced cursor lag now) (λ x. (refl, inl refl)))

  pub record_auth_failure-Follows :
      (c : String) (now : UtcDateTime)
      → is_in auth_expired (ts c) ≡ true
      → Keeps (Follows base ts) (record_auth_failure c now)
  unfolding record_auth_failure
  record_auth_failure-Follows c now g0 = reads-Follows base ts c _ (λ r.
      edits-Follows base ts c more_errors _ (λ x. (refl, inl refl))
        (transition_state-Follows base ts c auth_expired _ now g0))

  pub record_rate_limit-Follows :
      (c : String) (now : UtcDateTime)
      → ((r : ConnectorInstanceRecord)
          → lookup c base ≡ some r
          → same_status r.status active ≡ true
          → is_in degraded (ts c) ≡ true)
      → Follows base ts (record_rate_limit c now base).1
  unfolding record_rate_limit Keeps
  record_rate_limit-Follows c now goal =
      let hot = λ (r : ConnectorInstanceRecord).
        leb 3 (r.consecutive_rate_limits + 1) && same_status r.status active in
      let slow =
        transition_state c degraded
          "Consecutive rate limit (429) thresholds exceeded; backoff engaged" now in
      let rest : ConnectorInstanceRecord → Call (Unit {0}) = λ r. if hot r then slow else pure tt in
      reads_base-Follows base ts c (λ r. modify (edit c more_rate_limits) >> rest r) (same ts base)
        (λ r found.
          edits-Follows base ts c more_rate_limits (rest r) (λ x. (refl, inl refl))
            (if_cases (Keeps {E = ConnectorError} (Follows base ts)) (hot r) slow (pure tt)
              (λ yes.
                transition_state-Follows base ts c degraded _ now (goal r found (ground arith)))
              (λ no. nothing-Follows base ts))
            base (same ts base))

  pub record_health_recovery-Follows :
      (c : String) (now : UtcDateTime)
      → ((r : ConnectorInstanceRecord)
          → lookup c base ≡ some r
          → same_status r.status degraded ≡ true
          → is_in active (ts c) ≡ true)
      → Follows base ts (record_health_recovery c now base).1
  unfolding record_health_recovery Keeps
  record_health_recovery-Follows c now goal =
      let well =
        transition_state c active "Health probe recovered 200 OK; restored full sync rate" now in
      let rest : ConnectorInstanceRecord → Call (Unit {0}) =
        λ r. if same_status r.status degraded then well else pure tt in
      reads_base-Follows base ts c (λ r. modify (edit c no_limits) >> rest r) (same ts base)
        (λ r found.
          edits-Follows base ts c no_limits (rest r) (λ x. (refl, inl refl))
            (if_cases (Keeps {E = ConnectorError} (Follows base ts)) (same_status r.status degraded)
              well (pure tt)
              (λ yes. transition_state-Follows base ts c active _ now (goal r found yes))
              (λ no. nothing-Follows base ts))
            base (same ts base))

  pub delete_connector-Follows :
      (c : String) (now : UtcDateTime)
      → is_in deleting (ts c) ≡ true
      → is_in deleted (ts c) ≡ true
      → Keeps (Follows base ts) (delete_connector c now)
  unfolding delete_connector
  delete_connector-Follows c now g0 g1 = reads-Follows base ts c _ (λ r.
      transits-Follows base ts c deleting "Connector teardown initiated" now _ g0 (
        edits-Follows base ts c purged _ (λ x. (refl, inl refl))
          (transition_state-Follows base ts c deleted _ now g1)))
