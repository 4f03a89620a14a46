-- ===== src/Connectors/Lifecycle/Operations.antt =====
-- Every operation of connectors/lifecycle.py that writes.
use rev_pilot_ai.Base.{
  str_eq_self, String, none, Bool-cases, true, false, ◌≡◌, inl, inr, arith, List, refl, Keeps,
  str_eq, str_eq→eq, some, subst,
}
use rev_pilot_ai.Base.Time.{UtcDateTime}
use rev_pilot_ai.Base.Dict.{lookup, lookup-insert, insert}
use rev_pilot_ai.Connectors.Lifecycle.Edges.{same_status_self}
use rev_pilot_ai.Connectors.{
  registered, is_in, Registry, ConnectorStatus, configured, validating, active, degraded,
  auth_expired, deleting, deleted, failed, ConnectorInstanceRecord,
}
use rev_pilot_ai.Connectors.Lifecycle.{
  Manifest, register_connector, validate_connectivity, new_record,
}
use rev_pilot_ai.Connectors.Lifecycle.Follows.{Follows, stays, transition_state-Follows, Reaches}
use rev_pilot_ai.Connectors.Lifecycle.Requests.{
  Request, registers, configures, validates, transits, syncs, fails_auth, hits_limit, recovers,
  deletes, perform, IsFresh, subject, goals, goals_at,
}
use rev_pilot_ai.Connectors.Lifecycle.Steps.{
  same, discard-Follows, configure_credentials-Follows, validate_connectivity-Follows,
  record_sync_success-Follows, record_auth_failure-Follows, record_rate_limit-Follows,
  record_health_recovery-Follows, delete_connector-Follows,
}

-- The status of a connector; any one stands for that of a connector that is not there.
abbrev status_in : Registry → String → ConnectorStatus
status_in s j = elim (lookup j s) [ none ↦ registered | some r ↦ r.status ]

abbrev goals_in : Request → Registry → String → List ConnectorStatus
goals_in q s j = goals_at q j (status_in s j)

own_goal :
    (q : Request) (s : Registry) (t : ConnectorStatus)
    → is_in t (goals q (status_in s (subject q))) ≡ true
    → is_in t (goals_in q s (subject q)) ≡ true
own_goal q s t h = rw (str_eq_self (subject q)) h

register-Follows :
    (ts : String → List ConnectorStatus) (m : Manifest) (now : UtcDateTime) (s : Registry)
    → lookup m.connector_id s ≡ none
    → Follows s ts (insert m.connector_id (new_record m now) s)
register-Follows ts m now s fresh j r h =
    let put = lookup-insert m.connector_id j (new_record m now) s in
    elim (Bool-cases (str_eq m.connector_id j)) [
      | inl e ↦ let at : m.connector_id ≡ j = str_eq→eq m.connector_id j e in absurd (cc)
      | inr e ↦ (r, (ground arith, (stays, refl)))
    ]

perform-Follows :
    (q : Request) (now : UtcDateTime) (s : Registry)
    → IsFresh q s
    → Follows s (goals_in q s) (perform q now s).1
unfolding perform Keeps register_connector
perform-Follows (registers m) now s fresh =
    register-Follows (goals_in (registers m) s) m now s fresh
perform-Follows (configures c x xs) now s fresh =
    let q = configures c x xs in
    configure_credentials-Follows s (goals_in q s) c x xs now (own_goal q s configured refl) s
      (same (goals_in q s) s)
perform-Follows (validates c true) now s fresh =
    let q = validates c true in
    discard-Follows s (goals_in q s) (validate_connectivity c true now)
      (validate_connectivity-Follows s (goals_in q s) c true now (own_goal q s validating refl)
        (own_goal q s active refl))
      s (same (goals_in q s) s)
perform-Follows (validates c false) now s fresh =
    let q = validates c false in
    discard-Follows s (goals_in q s) (validate_connectivity c false now)
      (validate_connectivity-Follows s (goals_in q s) c false now (own_goal q s validating refl)
        (own_goal q s failed refl))
      s (same (goals_in q s) s)
perform-Follows (transits c new x) now s fresh =
    let q = transits c new x in
    transition_state-Follows s (goals_in q s) c new x now
      (own_goal q s new (rw (same_status_self new) refl)) s (same (goals_in q s) s)
perform-Follows (syncs c x lag) now s fresh =
    let q = syncs c x lag in
    record_sync_success-Follows s (goals_in q s) c x lag now s (same (goals_in q s) s)
perform-Follows (fails_auth c) now s fresh =
    let q = fails_auth c in
    record_auth_failure-Follows s (goals_in q s) c now (own_goal q s auth_expired refl) s
      (same (goals_in q s) s)
perform-Follows (hits_limit c) now s fresh =
    let q = hits_limit c in
    record_rate_limit-Follows s (goals_in q s) c now (λ r found at. own_goal q s degraded (cc))
perform-Follows (recovers c) now s fresh =
    let q = recovers c in
    record_health_recovery-Follows s (goals_in q s) c now (λ r found at. own_goal q s active (cc))
perform-Follows (deletes c) now s fresh =
    let q = deletes c in
    delete_connector-Follows s (goals_in q s) c now (own_goal q s deleting refl)
      (own_goal q s deleted refl) s (same (goals_in q s) s)

-- Whatever the service is asked, where a registration's identifier is not in use yet, and whether the call
-- returns or raises: every registered connector is still there with its tenant. Its status changes only
-- if the call names it, along the edges of the lifecycle, and each edge taken leads to one of the statuses that
-- this operation may set: `delete_connector` DELETING and DELETED, for example, `record_rate_limit`
-- DEGRADED on an ACTIVE connector, and a sync none.
pub perform-Reaches :
    (q : Request) (now : UtcDateTime) (s : Registry) (c : String) (r : ConnectorInstanceRecord)
    → IsFresh q s
    → lookup c s ≡ some r
    → (r' : ConnectorInstanceRecord) × ((lookup c (perform q now s).1 ≡ some r')
        × (Reaches (goals_at q c r.status) r.status r'.status × (r'.tenant_id ≡ r.tenant_id)))
perform-Reaches q now s c r fresh h =
    let (r', (e, (path, own))) = perform-Follows q now s fresh c r h in
    let at : status_in s c ≡ r.status = cc in
    (r', (e, (subst (λ a. Reaches (goals_at q c a) r.status r'.status) at path, own)))
