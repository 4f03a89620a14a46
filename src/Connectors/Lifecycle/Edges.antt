-- ===== src/Connectors/Lifecycle/Edges.antt =====
-- The transitions of `VALID_TRANSITIONS` in connectors/lifecycle.py as a relation.
use rev_pilot_ai.Base.{
  if◌then◌else◌, Bool-cases, true, ◌≡◌, ◌≢◌, arith, refl, String, some, none, ok, err, ◌↔◌, ◌⊎◌,
  Option-cases, inl, inr, Bool-cases,
}
use rev_pilot_ai.Base.Time.{UtcDateTime}
use rev_pilot_ai.Base.Dict.{lookup}
use rev_pilot_ai.Connectors.{
  edit, touched, moved, transition_state, get_connector, invalid_state_transition,
  connector_not_found, ConnectorInstanceRecord, Registry, rank, ConnectorStatus, registered,
  configured, validating, active, degraded, paused, auth_expired, schema_drift, quarantined,
  reconciliation_required, deleting, deleted, failed, same_status, is_in, valid_transitions, rank,
}

abbrev pub IsOpen : ConnectorStatus → Type 0
IsOpen s = (s ≢ deleting) × (s ≢ deleted)

infix 20 ◌⟶◌
pub data ◌⟶◌ : ConnectorStatus → ConnectorStatus → Type 0 where
  fails : {s : ConnectorStatus} → IsOpen s → s ≢ failed → s ⟶ failed
  tears_down : {s : ConnectorStatus} → IsOpen s → s ⟶ deleting
  is_torn_down : deleting ⟶ deleted
  is_configured : registered ⟶ configured
  is_reconfigured : auth_expired ⟶ configured
  is_repaired : failed ⟶ configured
  validates : configured ⟶ validating
  revalidates : auth_expired ⟶ validating
  retries : failed ⟶ validating
  activates : validating ⟶ active
  recovers : degraded ⟶ active
  resumes : paused ⟶ active
  reconciles : reconciliation_required ⟶ active
  degrades : active ⟶ degraded
  pauses : active ⟶ paused
  pauses_degraded : degraded ⟶ paused
  expires : active ⟶ auth_expired
  expires_degraded : degraded ⟶ auth_expired
  drifts : active ⟶ schema_drift
  is_quarantined : schema_drift ⟶ quarantined
  is_reprocessed : quarantined ⟶ reconciliation_required

ruleset edges = (
  fails, tears_down, is_torn_down, is_configured, is_reconfigured, is_repaired, validates,
  revalidates, retries, activates, recovers, resumes, reconciles, degrades, pauses, pauses_degraded,
  expires, expires_degraded, drifts, is_quarantined, is_reprocessed,
)

pub same_status_self : (s : ConnectorStatus) → same_status s s ≡ true
same_status_self s = ground arith

pub from_rank : (a b : ConnectorStatus) → rank a ≡ rank b → a ≡ b
from_rank a b h = grind arith

pub valid_transitions-⟶ : (s t : ConnectorStatus) → is_in t (valid_transitions s) ≡ true → s ⟶ t
unfolding valid_transitions
valid_transitions-⟶ s t h = grind (arith, edges)

pub ⟶-valid_transitions : (s t : ConnectorStatus) → s ⟶ t → is_in t (valid_transitions s) ≡ true
unfolding valid_transitions
⟶-valid_transitions s t (fails o f) = grind arith
⟶-valid_transitions s t (tears_down o) = grind arith
⟶-valid_transitions s t is_torn_down = refl
⟶-valid_transitions s t is_configured = refl
⟶-valid_transitions s t is_reconfigured = refl
⟶-valid_transitions s t is_repaired = refl
⟶-valid_transitions s t validates = refl
⟶-valid_transitions s t revalidates = refl
⟶-valid_transitions s t retries = refl
⟶-valid_transitions s t activates = refl
⟶-valid_transitions s t recovers = refl
⟶-valid_transitions s t resumes = refl
⟶-valid_transitions s t reconciles = refl
⟶-valid_transitions s t degrades = refl
⟶-valid_transitions s t pauses = refl
⟶-valid_transitions s t pauses_degraded = refl
⟶-valid_transitions s t expires = refl
⟶-valid_transitions s t expires_degraded = refl
⟶-valid_transitions s t drifts = refl
⟶-valid_transitions s t is_quarantined = refl
⟶-valid_transitions s t is_reprocessed = refl

-- What `transition_state` does with the record that it finds.
pub transition_state_at :
    (c : String) (new : ConnectorStatus) (reason : String) (now : UtcDateTime) (s : Registry)
    (r : ConnectorInstanceRecord)
    → lookup c s ≡ some r
    → transition_state c new reason now s ≡ (
        if same_status r.status new
        then (ok tt, edit c (touched reason now) s)
        else if is_in new (valid_transitions r.status)
        then (ok tt, edit c (moved new reason now) s)
        else (err invalid_state_transition, s))
unfolding transition_state get_connector
transition_state_at c new reason now s r h = cc

pub transition_state_missing :
    (c : String) (new : ConnectorStatus) (reason : String) (now : UtcDateTime) (s : Registry)
    → lookup c s ≡ none
    → transition_state c new reason now s ≡ (err connector_not_found, s)
unfolding transition_state get_connector
transition_state_missing c new reason now s h = cc

-- A transition succeeds exactly where the connector is present and stands in the new status or one edge
-- before it.
pub transition_state_iff :
    (c : String) (new : ConnectorStatus) (reason : String) (now : UtcDateTime) (s : Registry)
    → ((transition_state c new reason now s).0 ≡ ok tt) ↔ (
        (r : ConnectorInstanceRecord) × ((lookup c s ≡ some r)
          × ((r.status ≡ new) ⊎ (r.status ⟶ new))))
transition_state_iff c new reason now s = (to, from)
  where
    to :
        (transition_state c new reason now s).0 ≡ ok tt
        → (r : ConnectorInstanceRecord) × ((lookup c s ≡ some r)
            × ((r.status ≡ new) ⊎ (r.status ⟶ new)))
    to h = elim (Option-cases (lookup c s)) [
      | inl e ↦ let same = transition_state_missing c new reason now s e in absurd (cc)
      | inr (r, e) ↦
          let same = transition_state_at c new reason now s r e in
          elim (Bool-cases (same_status r.status new)) [
            | inl x ↦ (r, (e, inl (from_rank r.status new (ground arith))))
            | inr x ↦ (r, (e, inr (valid_transitions-⟶ r.status new (ground arith))))
          ]
    ]

    from :
        ((r : ConnectorInstanceRecord) × ((lookup c s ≡ some r)
            × ((r.status ≡ new) ⊎ (r.status ⟶ new))))
        → (transition_state c new reason now s).0 ≡ ok tt
    from (r, (e, inl h)) =
        let same = transition_state_at c new reason now s r e in
        ground (arith, same_status_self new)
    from (r, (e, inr h)) =
        let same = transition_state_at c new reason now s r e in
        ground (arith, ⟶-valid_transitions r.status new h)
