-- ===== src/Connectors/Lifecycle/Follows.antt =====
-- What the operations of connectors/lifecycle.py do with the status of every registered connector.
use rev_pilot_ai.Base.{
  String, ok, err, some, none, Option-cases, Bool-cases, ◌≡◌, ◌⊎◌, inl, inr, arith, refl, Option,
  Result, or_raise, if_cases, Keeps, Keeps-bind, Keeps-pure, Keeps-modify, modify, ◌>>=◌, ◌>>◌,
  str_eq, sym, subst, ◌∙◌, pure, str_eq→eq, List, true,
}
use rev_pilot_ai.Base.Time.{UtcDateTime}
use rev_pilot_ai.Base.Dict.{lookup, lookup-insert, insert}
use rev_pilot_ai.Connectors.{
  connector_not_found, invalid_state_transition, edit, touched, moved, transition_state,
  get_connector, ConnectorInstanceRecord, Registry, ConnectorStatus, ConnectorError, same_status,
  valid_transitions, is_in, Call,
}
use rev_pilot_ai.Connectors.Lifecycle.Edges.{
  ◌⟶◌, valid_transitions-⟶, transition_state_at, transition_state_missing,
}

-- A path of edges, each to one of the statuses `ts`.
pub data Reaches (ts : List ConnectorStatus) : ConnectorStatus → ConnectorStatus → Type 0 where
  stays : {a : ConnectorStatus} → Reaches ts a a
  goes : {a b c : ConnectorStatus} → Reaches ts a b → b ⟶ c → is_in c ts ≡ true → Reaches ts a c

-- Every connector of `base` is there, with its tenant, at a status that the edges to its statuses `ts`
-- lead to.
abbrev pub Follows : Registry → (String → List ConnectorStatus) → Registry → Type 0
Follows base ts s =
    (j : String) (r : ConnectorInstanceRecord)
    → lookup j base ≡ some r
    → (r' : ConnectorInstanceRecord) × ((lookup j s ≡ some r')
        × (Reaches (ts j) r.status r'.status × (r'.tenant_id ≡ r.tenant_id)))

extend :
    {ts : List ConnectorStatus} {a : ConnectorStatus} (b c : ConnectorStatus)
    → Reaches ts a b
    → (c ≡ b) ⊎ ((b ⟶ c) × (is_in c ts ≡ true))
    → Reaches ts a c
extend {ts} {a} b c path (inl e) = subst (Reaches ts a) (sym e) path
extend b c path (inr (e, i)) = goes path e i

pub same_entry :
    {o : Option ConnectorInstanceRecord} {x y : ConnectorInstanceRecord}
    → o ≡ some x
    → o ≡ some y
    → x ≡ y
same_entry h k = cc

pub edit_at :
    (c : String) (f : ConnectorInstanceRecord → ConnectorInstanceRecord) (s : Registry)
    (x : ConnectorInstanceRecord)
    → lookup c s ≡ some x
    → edit c f s ≡ insert c (f x) s
unfolding edit
edit_at c f s x e = cc

edit_missing :
    (c : String) (f : ConnectorInstanceRecord → ConnectorInstanceRecord) (s : Registry)
    → lookup c s ≡ none
    → edit c f s ≡ s
unfolding edit
edit_missing c f s e = cc

-- A change of one record that keeps its tenant and its status, or takes one edge to one of `ts`.
abbrev pub IsStep :
    List ConnectorStatus → ConnectorInstanceRecord → ConnectorInstanceRecord → Type 0
IsStep ts x y =
    (y.tenant_id ≡ x.tenant_id)
    × ((y.status ≡ x.status) ⊎ ((x.status ⟶ y.status) × (is_in y.status ts ≡ true)))

module _ (base : Registry) (ts : String → List ConnectorStatus) where
  pub insert-Follows :
      (c : String) (x y : ConnectorInstanceRecord) (s : Registry)
      → lookup c s ≡ some x
      → IsStep (ts c) x y
      → Follows base ts s
      → Follows base ts (insert c y s)
  insert-Follows c x y s found (same, step) kept j r h =
      let (r', (e', (path, same'))) = kept j r h in
      let put = lookup-insert c j y s in
      elim (Bool-cases (str_eq c j)) [
        | inl e ↦
            let at : c ≡ j = str_eq→eq c j e in
            let one : x ≡ r' = same_entry found (subst (λ k. lookup k s ≡ some r') (sym at) e') in
            (
              y,
              (
                ground arith,
                (
                  subst (λ k. Reaches (ts k) r.status y.status) at
                      (extend r'.status y.status
                        (subst (λ k. Reaches (ts k) r.status r'.status) (sym at) path)
                        (subst
                          (λ z.
                            (y.status ≡ z.status)
                            ⊎ ((z.status ⟶ y.status) × (is_in y.status (ts c) ≡ true)))
                          one step)),
                  subst (λ z. y.tenant_id ≡ z.tenant_id) one same ∙ same',
                ),
              ),
            )
        | inr e ↦ (r', (ground arith, (path, same')))
      ]

  edit-Follows :
      (c : String) (f : ConnectorInstanceRecord → ConnectorInstanceRecord) (s : Registry)
      → ((x : ConnectorInstanceRecord) → lookup c s ≡ some x → IsStep (ts c) x (f x))
      → Follows base ts s
      → Follows base ts (edit c f s)
  edit-Follows c f s step kept = elim (Option-cases (lookup c s)) [
    | inl e ↦ subst (Follows base ts) (sym (edit_missing c f s e)) kept
    | inr (x, e) ↦
        subst (Follows base ts) (sym (edit_at c f s x e))
          (insert-Follows c x (f x) s e (step x e) kept)
  ]

  pub quiet-Follows :
      (c : String) (f : ConnectorInstanceRecord → ConnectorInstanceRecord)
      → ((x : ConnectorInstanceRecord) → IsStep (ts c) x (f x))
      → Keeps (Follows base ts) (modify {E = ConnectorError} (edit c f))
  quiet-Follows c f step =
      Keeps-modify (Follows base ts) ConnectorError (edit c f)
        (λ s. edit-Follows c f s (λ x e. step x))

  pub transition_state-Follows :
      (c : String) (new : ConnectorStatus) (reason : String) (now : UtcDateTime)
      → is_in new (ts c) ≡ true
      → Keeps (Follows base ts) (transition_state c new reason now)
  unfolding Keeps
  transition_state-Follows c new reason now goal s kept = elim (Option-cases (lookup c s)) [
    | inl e ↦
        subst (λ o. Follows base ts o.1) (sym (transition_state_missing c new reason now s e)) kept
    | inr (x, e) ↦
        subst (λ o. Follows base ts o.1) (sym (transition_state_at c new reason now s x e))
          (if_cases (λ (o : Result ConnectorError (Unit {0}) × Registry). Follows base ts o.1)
            (same_status x.status new) (ok tt, edit c (touched reason now) s) _
            (λ _. edit-Follows c (touched reason now) s (λ y _. (refl, inl refl)) kept)
            (λ _.
              if_cases (λ (o : Result ConnectorError (Unit {0}) × Registry). Follows base ts o.1)
                (is_in new (valid_transitions x.status)) (ok tt, edit c (moved new reason now) s)
                (err invalid_state_transition, s)
                (λ i.
                  edit-Follows c (moved new reason now) s
                    (λ y f. (
                      refl,
                      inr (
                        subst (λ z. z.status ⟶ new) (same_entry e f)
                            (valid_transitions-⟶ x.status new i),
                        goal,
                      ),
                    ))
                    kept)
                (λ _. kept)))
  ]

  get_connector-Follows : (c : String) → Keeps (Follows base ts) (get_connector c)
  unfolding Keeps get_connector
  get_connector-Follows c s kept = elim (Option-cases (lookup c s)) [
    | inl e ↦
        subst (λ o. Follows base ts (or_raise {E = ConnectorError} o connector_not_found s).1)
          (sym e) kept
    | inr (x, e) ↦
        subst (λ o. Follows base ts (or_raise {E = ConnectorError} o connector_not_found s).1)
          (sym e) kept
  ]

  pub nothing-Follows : Keeps (Follows base ts) (pure {E = ConnectorError} tt)
  nothing-Follows = Keeps-pure (Follows base ts) ConnectorError tt

  -- A call that reads its connector first.
  pub reads-Follows :
      {A : Type 0} (c : String) (k : ConnectorInstanceRecord → Call A)
      → ((r : ConnectorInstanceRecord) → Keeps (Follows base ts) (k r))
      → Keeps (Follows base ts) (get_connector c >>= k)
  reads-Follows c k next =
      Keeps-bind (Follows base ts) (get_connector c) k (get_connector-Follows c) next

  -- A call that first changes fields other than the status.
  pub edits-Follows :
      {A : Type 0} (c : String) (f : ConnectorInstanceRecord → ConnectorInstanceRecord) (k : Call A)
      → ((x : ConnectorInstanceRecord) → IsStep (ts c) x (f x))
      → Keeps (Follows base ts) k
      → Keeps (Follows base ts) (modify (edit c f) >> k)
  edits-Follows c f k step next =
      Keeps-bind (Follows base ts) (modify (edit c f)) (λ _. k) (quiet-Follows c f step) (λ _. next)

  -- A call that first changes the status.
  pub transits-Follows :
      {A : Type 0} (c : String) (new : ConnectorStatus) (reason : String) (now : UtcDateTime)
      (k : Call A)
      → is_in new (ts c) ≡ true
      → Keeps (Follows base ts) k
      → Keeps (Follows base ts) (transition_state c new reason now >> k)
  transits-Follows c new reason now k goal next =
      Keeps-bind (Follows base ts) (transition_state c new reason now) (λ _. k)
        (transition_state-Follows c new reason now goal) (λ _. next)

  -- A call that reads its connector first, on the registry that it starts from.
  pub reads_base-Follows :
      {A : Type 0} (c : String) (k : ConnectorInstanceRecord → Call A)
      → Follows base ts base
      → ((r : ConnectorInstanceRecord) → lookup c base ≡ some r → Follows base ts (k r base).1)
      → Follows base ts ((get_connector c >>= k) base).1
  unfolding get_connector
  reads_base-Follows c k still next = elim (Option-cases (lookup c base)) [
    | inl e ↦
        subst
          (λ o.
            Follows base ts
              (((λ s. or_raise {E = ConnectorError} o connector_not_found s) >>= k) base).1)
          (sym e) still
    | inr (x, e) ↦
        subst
          (λ o.
            Follows base ts
              (((λ s. or_raise {E = ConnectorError} o connector_not_found s) >>= k) base).1)
          (sym e) (next x e)
  ]
