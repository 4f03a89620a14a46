-- ===== src/Connectors/Quarantine/Clearing.antt =====
-- A connector on its way into quarantine and back, as connectors/ingestion/quarantine.py moves it.
use rev_pilot_ai.Base.{
  ℕ, ◌+◌, prefixed, String, true, some, ◌≡◌, ◌≢◌, arith, refl, List, [], ◌∷◌, ok, str_eq, ap, sym,
  subst, ◌∙◌, modify, ◌>>◌, bind_at, Result, pure, keep_if,
}
use rev_pilot_ai.Base.Time.{UtcDateTime}
use rev_pilot_ai.Base.Dict.{Dict, lookup, insert, values, lookup-insert-same, insert-insert}
use rev_pilot_ai.Connectors.{
  ConnectorError, ConnectorInstanceRecord, Registry, Call, active, schema_drift, quarantined,
  reconciliation_required, edit, moved, transition_state,
}
use rev_pilot_ai.Connectors.Lifecycle.Edges.{
  ◌⟶◌, drifts, is_quarantined, is_reprocessed, reconciles,
}
use rev_pilot_ai.Connectors.Lifecycle.Single.{moves_then, edits_then, reads_then, moves_to, apart}
use rev_pilot_ai.Connectors.Quarantine.{
  lifted, Diversion, QuarantineState, QuarantineRecord, divert_to_quarantine, reprocess_quarantine,
  hold_connector, release_connector, with_lifecycle, put_entry, new_entry, count_one, reprocessed,
  all_cleared, is_cleared, get_quarantine_records, drift_reason, stored_reason,
}

-- The registry after a connector was taken into quarantine.
abbrev pub held_registry : Diversion → UtcDateTime → ConnectorInstanceRecord → Registry → Registry
held_registry d now r s =
    let r1 = count_one r in
    let r2 = moved schema_drift (drift_reason d) now r1 in
    insert d.connector_id (moved quarantined (stored_reason d) now r2)
      (insert d.connector_id r2 (insert d.connector_id r1 s))

drift≢quarantined : schema_drift ≢ quarantined
drift≢quarantined = apart schema_drift quarantined (omega arith)

active≢drift : active ≢ schema_drift
active≢drift = apart active schema_drift (omega arith)

quarantined≢reconciliation : quarantined ≢ reconciliation_required
quarantined≢reconciliation = apart quarantined reconciliation_required (omega arith)

reconciliation≢active : reconciliation_required ≢ active
reconciliation≢active = apart reconciliation_required active (omega arith)

hold_connector-active :
    (d : Diversion) (now : UtcDateTime) (s : Registry) (r : ConnectorInstanceRecord)
    → lookup d.connector_id s ≡ some r
    → r.status ≡ active
    → hold_connector d now s ≡ (ok tt, held_registry d now r s)
unfolding hold_connector
hold_connector-active d now s r h at =
    let c = d.connector_id in
    let r1 = count_one r in
    let r2 = moved schema_drift (drift_reason d) now r1 in
    let s1 = insert c r1 s in
    let drift = transition_state c schema_drift (drift_reason d) now in
    let keep = transition_state c quarantined (stored_reason d) now in
    reads_then c (λ _. modify (edit c count_one) >> (drift >> keep)) s r h
    ∙ (edits_then c count_one (drift >> keep) s r h
        ∙ (moves_then c schema_drift (drift_reason d) now keep s1 r1 (lookup-insert-same c r1 s)
              (λ e. active≢drift (sym at ∙ e)) (subst (λ x. x ⟶ schema_drift) (sym at) drifts)
            ∙ moves_to c quarantined (stored_reason d) now (insert c r2 s1) r2
                (lookup-insert-same c r2 s1) drift≢quarantined is_quarantined))

with_lifecycle_at :
    (m : Call (Unit {0})) (s : QuarantineState) (c : Registry)
    (o : Result ConnectorError (Unit {0}) × Registry)
    → s.lifecycle_service ≡ some c
    → m c ≡ o
    → with_lifecycle m s ≡ (lifted o.0, record s { lifecycle_service = some o.1 })
unfolding with_lifecycle
with_lifecycle_at m s c o linked does = cc

-- The store and the registry after a payload was diverted.
abbrev diverted :
    Diversion → UtcDateTime → ConnectorInstanceRecord → Registry → QuarantineState → QuarantineState
diverted d now r c s = record (put_entry d.quarantine_id (new_entry d now) s) {
  lifecycle_service = some (held_registry d now r c);
}

divert_to_quarantine-active :
    (d : Diversion) (now : UtcDateTime) (s : QuarantineState) (c : Registry)
    (r : ConnectorInstanceRecord)
    → s.lifecycle_service ≡ some c
    → lookup d.connector_id c ≡ some r
    → r.status ≡ active
    → divert_to_quarantine d now s ≡ (ok d.quarantine_id, diverted d now r c s)
unfolding divert_to_quarantine
divert_to_quarantine-active d now s c r linked h at =
    let s1 = put_entry d.quarantine_id (new_entry d now) s in
    bind_at (with_lifecycle (hold_connector d now)) (λ _. pure d.quarantine_id) s1
      (with_lifecycle_at (hold_connector d now) s1 c _ linked
        (hold_connector-active d now c r h at))

-- The records of one connector in a store.
abbrev records_of : String → Dict QuarantineRecord → List QuarantineRecord
records_of c q = keep_if (λ x. str_eq x.connector_id c) (values q)

all_cleared-insert :
    (c k : String) (v : QuarantineRecord) (q : Dict QuarantineRecord)
    → is_cleared v.reprocessed_at ≡ true
    → all_cleared (records_of c q) ≡ true
    → all_cleared (records_of c (insert k v q)) ≡ true
unfolding insert values
all_cleared-insert c k v [] done h = ground arith
all_cleared-insert c k v ((j, x) ∷ q) done h =
    let rest = all_cleared-insert c k v q done in ground arith

release_connector-quarantined :
    (c v : String) (now : UtcDateTime) (s : Registry) (r : ConnectorInstanceRecord)
    → lookup c s ≡ some r
    → r.status ≡ quarantined
    → (r' : ConnectorInstanceRecord) × ((s' : Registry) × ((release_connector c v now s
            ≡ (ok tt, insert c r' s'))
          × ((r'.status ≡ active) × (r'.quarantine_count ≡ r.quarantine_count))))
unfolding release_connector
release_connector-quarantined c v now s r h at =
    let why = prefixed "All quarantined events reprocessed with mapping " v in
    let r1 = moved reconciliation_required why now r in
    let s1 = insert c r1 s in
    let back =
      transition_state c active "Reconciliation completed; sync restored to normal polling" now in
    (
      moved active "Reconciliation completed; sync restored to normal polling" now r1,
      (
        s1,
        (
          moves_then c reconciliation_required why now back s r h
                (λ e. quarantined≢reconciliation (sym at ∙ e))
                (subst (λ x. x ⟶ reconciliation_required) (sym at) is_reprocessed)
              ∙ moves_to c active "Reconciliation completed; sync restored to normal polling" now s1
                  r1 (lookup-insert-same c r1 s) reconciliation≢active reconciles,
          (refl, refl),
        ),
      ),
    )

-- The connector is ACTIVE in what the service holds, with this many payloads quarantined so far.
abbrev pub IsActiveWith : String → ℕ → QuarantineState → Type 0
IsActiveWith c n s =
    (g : Registry) × ((r : ConnectorInstanceRecord) × ((s.lifecycle_service ≡ some g)
        × ((lookup c g ≡ some r) × ((r.status ≡ active) × (r.quarantine_count ≡ n)))))

reprocess_quarantine-last :
    (id v : String) (now : UtcDateTime) (s : QuarantineState) (q : QuarantineRecord) (g : Registry)
    (r : ConnectorInstanceRecord)
    → lookup id s.quarantine_records ≡ some q
    → s.lifecycle_service ≡ some g
    → lookup q.connector_id g ≡ some r
    → r.status ≡ quarantined
    → all_cleared (records_of q.connector_id (insert id (reprocessed v now q) s.quarantine_records))
      ≡ true
    → ((reprocess_quarantine id v now s).0 ≡ ok tt)
      × IsActiveWith q.connector_id r.quarantine_count (reprocess_quarantine id v now s).1
unfolding reprocess_quarantine get_quarantine_records
reprocess_quarantine-last id v now s q g r found linked h at clear =
    let s1 = put_entry id (reprocessed v now q) s in
    let (r', (g', (does, (up, count)))) =
      release_connector-quarantined q.connector_id v now g r h at in
    let to_release : reprocess_quarantine id v now s
        ≡ with_lifecycle (release_connector q.connector_id v now) s1 =
      cc in
    let ends =
      to_release ∙ with_lifecycle_at (release_connector q.connector_id v now) s1 g _ linked does in
    (
      ap (λ o. o.0) ends,
      (
        insert q.connector_id r' g',
        (
          r',
          (
            ap (λ o. o.1.lifecycle_service) ends,
            (lookup-insert-same q.connector_id r' g', (up, count)),
          ),
        ),
      ),
    )

-- A payload is diverted from an ACTIVE connector whose earlier payloads are all reprocessed, and then
-- reprocessed: the connector is ACTIVE again, and its count is one higher.
pub divert_to_quarantine-reprocess_quarantine :
    (d : Diversion) (v : String) (now now' : UtcDateTime) (s : QuarantineState) (c : Registry)
    (r : ConnectorInstanceRecord)
    → s.lifecycle_service ≡ some c
    → lookup d.connector_id c ≡ some r
    → r.status ≡ active
    → all_cleared (get_quarantine_records d.connector_id s) ≡ true
    → let s' = (divert_to_quarantine d now s).1 in
      ((reprocess_quarantine d.quarantine_id v now' s').0 ≡ ok tt)
      × IsActiveWith d.connector_id
          (r.quarantine_count + 1)
          (reprocess_quarantine d.quarantine_id v now' s').1
unfolding get_quarantine_records
divert_to_quarantine-reprocess_quarantine d v now now' s c r linked h at clear =
    let id = d.quarantine_id in
    let q = new_entry d now in
    let q' = reprocessed v now' q in
    let r1 = count_one r in
    let r2 = moved schema_drift (drift_reason d) now r1 in
    let s1 = insert d.connector_id r2 (insert d.connector_id r1 c) in
    let done : all_cleared
          (records_of d.connector_id (insert id q' (insert id q s.quarantine_records)))
        ≡ true =
      subst (λ z. all_cleared (records_of d.connector_id z) ≡ true)
        (sym (insert-insert id q' q s.quarantine_records))
        (all_cleared-insert d.connector_id id q' s.quarantine_records refl clear) in
    subst
      (λ z.
        ((reprocess_quarantine id v now' z).0 ≡ ok tt)
        × IsActiveWith d.connector_id (r.quarantine_count + 1) (reprocess_quarantine id v now' z).1)
      (sym (ap (λ o. o.1) (divert_to_quarantine-active d now s c r linked h at)))
      (reprocess_quarantine-last id v now' (diverted d now r c s) q (held_registry d now r c)
        (moved quarantined (stored_reason d) now r2) (lookup-insert-same id q s.quarantine_records)
        refl (lookup-insert-same d.connector_id (moved quarantined (stored_reason d) now r2) s1)
        refl done)
