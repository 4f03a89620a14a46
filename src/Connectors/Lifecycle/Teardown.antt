-- ===== src/Connectors/Lifecycle/Teardown.antt =====
-- `delete_connector` and `configure_credentials` of connectors/lifecycle.py.
use rev_pilot_ai.Base.{
  ◌>>◌, String, ok, err, some, none, ◌≡◌, ◌≢◌, List, ◌∷◌, refl, ap, sym, subst, ◌∙◌, bind_at,
  modify, raise_if,
}
use rev_pilot_ai.Base.Int.{pos}
use rev_pilot_ai.Base.Time.{UtcDateTime}
use rev_pilot_ai.Base.Dict.{lookup, lookup-insert-same, insert}
use rev_pilot_ai.Connectors.{
  invalid_scope, Call, edit, moved, transition_state, get_connector, ConnectorInstanceRecord,
  Registry, configured, deleting, deleted, invalid_state_transition,
}
use rev_pilot_ai.Connectors.Lifecycle.{
  configure_credentials, delete_connector, is_empty, bound, purged,
}
use rev_pilot_ai.Connectors.Lifecycle.Follows.{edit_at}
use rev_pilot_ai.Connectors.Lifecycle.Single.{
  goes_to, moves_to, get_connector_at, refuses, open_to_deleting, deleting≢deleted,
}
use rev_pilot_ai.Connectors.Lifecycle.Edges.{◌⟶◌, is_torn_down}

-- `delete_connector` takes every connector that is not DELETED to DELETED, and leaves no cursor, no
-- credentials and no lag.
pub delete_connector-deleted :
    (c : String) (now : UtcDateTime) (s : Registry) (r : ConnectorInstanceRecord)
    → lookup c s ≡ some r
    → r.status ≢ deleted
    → ((delete_connector c now s).0 ≡ ok tt)
      × ((r' : ConnectorInstanceRecord) × ((lookup c (delete_connector c now s).1 ≡ some r')
            × ((r'.status ≡ deleted)
                × ((r'.cursor_position ≡ none)
                    × ((r'.secret_ref ≡ none) × (r'.sync_lag_seconds ≡ pos 0))))))
unfolding delete_connector
delete_connector-deleted c now s r h live =
    let (r1, (e1, at1)) =
      goes_to c deleting "Connector teardown initiated" now s r h
        (open_to_deleting r.status live) in
    let s1 = insert c r1 s in
    let put2 = edit_at c purged s1 r1 (lookup-insert-same c r1 s) in
    let s2 = insert c (purged r1) s1 in
    let r3 = moved deleted "Teardown complete; state purged" now (purged r1) in
    let last =
      moves_to c deleted "Teardown complete; state purged" now s2 (purged r1)
        (lookup-insert-same c (purged r1) s1) (λ d. deleting≢deleted (sym at1 ∙ d))
        (subst (λ x. x ⟶ deleted) (sym at1) is_torn_down) in
    let start = transition_state c deleting "Connector teardown initiated" now in
    let wipe : Call (Unit {0}) = modify (edit c purged) in
    let finish = transition_state c deleted "Teardown complete; state purged" now in
    let ends : delete_connector c now s ≡ (ok tt, insert c r3 s2) =
      bind_at (get_connector c) (λ _. start >> (wipe >> finish)) s (get_connector_at c s r h)
      ∙ (bind_at start (λ _. wipe >> finish) s e1
          ∙ (bind_at wipe (λ _. finish) s1 (ap (λ x. (ok tt, x)) put2) ∙ last)) in
    (
      ap (λ o. o.0) ends,
      (
        r3,
        (
          subst (λ o. lookup c o.1 ≡ some r3) (sym ends) (lookup-insert-same c r3 s2),
          (refl, (refl, (refl, refl))),
        ),
      ),
    )

-- Where the status may not become CONFIGURED, `configure_credentials` raises, and yet the new
-- credentials and scopes stand in the record: they are written before the transition is checked.
pub configure_credentials-writes :
    (c secret_ref x : String) (xs : List String) (now : UtcDateTime) (s : Registry)
    (r : ConnectorInstanceRecord)
    → lookup c s ≡ some r
    → r.status ≢ configured
    → ¬ (r.status ⟶ configured)
    → (configure_credentials c secret_ref (x ∷ xs) now s
        ≡ (err invalid_state_transition, insert c (bound secret_ref (x ∷ xs) r) s))
unfolding configure_credentials
configure_credentials-writes c secret_ref x xs now s r h other closed =
    let r1 = bound secret_ref (x ∷ xs) r in
    let s1 = insert c r1 s in
    let put = edit_at c (bound secret_ref (x ∷ xs)) s r h in
    let last =
      refuses c configured "Credentials configured" now s1 r1 (lookup-insert-same c r1 s) other
        closed in
    let bind_it : Call (Unit {0}) = modify (edit c (bound secret_ref (x ∷ xs))) in
    let finish = transition_state c configured "Credentials configured" now in
    bind_at (get_connector c)
      (λ _. raise_if (is_empty (x ∷ xs)) invalid_scope >> (bind_it >> finish)) s
      (get_connector_at c s r h)
    ∙ (bind_at bind_it (λ _. finish) s (ap (λ y. (ok tt, y)) put) ∙ last)
