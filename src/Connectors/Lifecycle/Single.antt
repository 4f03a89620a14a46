-- ===== src/Connectors/Lifecycle/Single.antt =====
-- One transition of connectors/lifecycle.py on a connector that is there.
use rev_pilot_ai.Base.{
  ◌>>=◌, ◌>>◌, String, ok, err, some, Bool-cases, true, false, ◌≡◌, ◌≢◌, ◌⊎◌, inl, inr, arith, refl,
  ap, bind_at, modify,
}
use rev_pilot_ai.Base.Time.{UtcDateTime}
use rev_pilot_ai.Base.Dict.{lookup, insert}
use rev_pilot_ai.Connectors.{
  Call, rank, edit, touched, moved, transition_state, get_connector, ConnectorInstanceRecord,
  Registry, ConnectorStatus, deleting, deleted, same_status, valid_transitions, is_in,
  invalid_state_transition,
}
use rev_pilot_ai.Connectors.Lifecycle.Follows.{edit_at}
use rev_pilot_ai.Connectors.Lifecycle.Edges.{
  ◌⟶◌, same_status_self, transition_state_at, ⟶-valid_transitions, valid_transitions-⟶, from_rank,
  tears_down,
}

pub apart : (a b : ConnectorStatus) → rank a ≢ rank b → a ≢ b
apart a b far h = far (ap rank h)

is_allowed :
    (a b : ConnectorStatus)
    → (a ≡ b) ⊎ (a ⟶ b)
    → same_status a b ≡ false
    → is_in b (valid_transitions a) ≡ true
is_allowed a b (inl e) other = let self = same_status_self b in absurd (cc)
is_allowed a b (inr e) other = ⟶-valid_transitions a b e

pub deleting≢deleted : deleting ≢ deleted
deleting≢deleted = apart deleting deleted (omega arith)

pub open_to_deleting : (a : ConnectorStatus) → a ≢ deleted → (a ≡ deleting) ⊎ (a ⟶ deleting)
open_to_deleting a live = elim (Bool-cases (same_status a deleting)) [
  | inl e ↦ inl (from_rank a deleting (ground arith))
  | inr e ↦ inr (tears_down ((λ d. let self = same_status_self deleting in cc), live))
]

not_same : (a b : ConnectorStatus) → a ≢ b → same_status a b ≡ false
not_same a b other = elim (Bool-cases (same_status a b)) [
  | inl e ↦ absurd (other (from_rank a b (ground arith)))
  | inr e ↦ e
]

not_in : (a b : ConnectorStatus) → ¬ (a ⟶ b) → is_in b (valid_transitions a) ≡ false
not_in a b closed = elim (Bool-cases (is_in b (valid_transitions a))) [
  | inl e ↦ absurd (closed (valid_transitions-⟶ a b e))
  | inr e ↦ e
]

-- A transition that succeeds stores a record with the new status.
pub goes_to :
    (c : String) (new : ConnectorStatus) (reason : String) (now : UtcDateTime) (s : Registry)
    (r : ConnectorInstanceRecord)
    → lookup c s ≡ some r
    → (r.status ≡ new) ⊎ (r.status ⟶ new)
    → (r' : ConnectorInstanceRecord) × ((transition_state c new reason now s
          ≡ (ok tt, insert c r' s))
        × (r'.status ≡ new))
goes_to c new reason now s r h step =
    let does = transition_state_at c new reason now s r h in
    elim (Bool-cases (same_status r.status new)) [
      | inl e ↦
          let put = edit_at c (touched reason now) s r h in
          (touched reason now r, (cc, from_rank r.status new (ground arith)))
      | inr e ↦
          let put = edit_at c (moved new reason now) s r h in
          let allowed : is_in new (valid_transitions r.status) ≡ true =
            is_allowed r.status new step e in
          (moved new reason now r, (cc, refl))
    ]

pub moves_to :
    (c : String) (new : ConnectorStatus) (reason : String) (now : UtcDateTime) (s : Registry)
    (r : ConnectorInstanceRecord)
    → lookup c s ≡ some r
    → r.status ≢ new
    → r.status ⟶ new
    → transition_state c new reason now s ≡ (ok tt, insert c (moved new reason now r) s)
moves_to c new reason now s r h other step =
    let does = transition_state_at c new reason now s r h in
    let put = edit_at c (moved new reason now) s r h in
    let apart = not_same r.status new other in
    let allowed = ⟶-valid_transitions r.status new step in cc

pub get_connector_at :
    (c : String) (s : Registry) (r : ConnectorInstanceRecord)
    → lookup c s ≡ some r
    → get_connector c s ≡ (ok r, s)
unfolding get_connector
get_connector_at c s r h = cc

pub refuses :
    (c : String) (new : ConnectorStatus) (reason : String) (now : UtcDateTime) (s : Registry)
    (r : ConnectorInstanceRecord)
    → lookup c s ≡ some r
    → r.status ≢ new
    → ¬ (r.status ⟶ new)
    → transition_state c new reason now s ≡ (err invalid_state_transition, s)
refuses c new reason now s r h other closed =
    let does = transition_state_at c new reason now s r h in
    let apart = not_same r.status new other in let refused = not_in r.status new closed in cc

-- A transition along an edge, as the first of several calls.
pub moves_then :
    {A : Type 0} (c : String) (new : ConnectorStatus) (reason : String) (now : UtcDateTime)
    (k : Call A) (s : Registry) (r : ConnectorInstanceRecord)
    → lookup c s ≡ some r
    → r.status ≢ new
    → r.status ⟶ new
    → (transition_state c new reason now >> k) s ≡ k (insert c (moved new reason now r) s)
moves_then c new reason now k s r h other step =
    bind_at (transition_state c new reason now) (λ _. k) s
      (moves_to c new reason now s r h other step)

-- An edit, as the first of several calls.
pub edits_then :
    {A : Type 0} (c : String) (f : ConnectorInstanceRecord → ConnectorInstanceRecord) (k : Call A)
    (s : Registry) (r : ConnectorInstanceRecord)
    → lookup c s ≡ some r
    → (modify (edit c f) >> k) s ≡ k (insert c (f r) s)
edits_then c f k s r h = ap k (edit_at c f s r h)

pub reads_then :
    {A : Type 0} (c : String) (k : ConnectorInstanceRecord → Call A) (s : Registry)
    (r : ConnectorInstanceRecord)
    → lookup c s ≡ some r
    → (get_connector c >>= k) s ≡ k r s
reads_then c k s r h = bind_at (get_connector c) k s (get_connector_at c s r h)
