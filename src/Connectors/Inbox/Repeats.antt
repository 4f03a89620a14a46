-- ===== src/Connectors/Inbox/Repeats.antt =====
-- Repeated events at the inbox of connectors/ingestion/inbox.py.
use rev_pilot_ai.Base.{
  if_cases, ◌∙◌, String, false, Option, none, some, ◌≡◌, inl, inr, arith, refl, List, [], ◌∷◌,
  Option-cases, Bool-cases, str_eq, str_eq→eq, sym, subst, ap,
}
use rev_pilot_ai.Base.Time.{UtcDateTime}
use rev_pilot_ai.Base.Dict.{lookup, lookup-insert, lookup-insert-same}
use rev_pilot_ai.Connectors.Inbox.{
  Incoming, InboxReceipt, InboxState, duplicate, processed, ignored_out_of_order, dedup_key,
  entity_key, target_entity, ingest, record_incoming_event, record_all, new_receipt,
  duplicate_receipt, or_now, is_stale, register, set_canonical,
}

-- The three identifiers agree.
abbrev pub SameEvent : Incoming → Incoming → Type 0
SameEvent a b =
    (a.tenant_id ≡ b.tenant_id)
    × ((a.connector_id ≡ b.connector_id) × (a.external_event_id ≡ b.external_event_id))

ingest-registered :
    (e : Incoming) (o : Option String) (event_id : String) (now : UtcDateTime) (s : InboxState)
    → lookup (dedup_key e) (ingest e o event_id now s).1.inbox_registry
      ≡ some (ingest e o event_id now s).0
unfolding ingest
ingest-registered e none event_id now s =
    lookup-insert-same (dedup_key e) (new_receipt processed e event_id now) s.inbox_registry
ingest-registered e (some x) event_id now s =
    if_cases (λ (o : InboxReceipt × InboxState). lookup (dedup_key e) o.1.inbox_registry ≡ some o.0)
      (is_stale (or_now e.event_timestamp now)
        (lookup (entity_key e.tenant_id x) s.canonical_entity_state))
      (register e (new_receipt ignored_out_of_order e event_id now) s)
      (register e (new_receipt processed e event_id now)
        (set_canonical (entity_key e.tenant_id x) (or_now e.event_timestamp now) e.raw_payload s))
      (λ _.
        lookup-insert-same (dedup_key e) (new_receipt ignored_out_of_order e event_id now)
          s.inbox_registry)
      (λ _.
        lookup-insert-same (dedup_key e) (new_receipt processed e event_id now) s.inbox_registry)

pub duplicate_at :
    (e : Incoming) (event_id : String) (now : UtcDateTime) (s : InboxState)
    (existing : InboxReceipt)
    → lookup (dedup_key e) s.inbox_registry ≡ some existing
    → record_incoming_event e event_id now s ≡ (duplicate_receipt existing e now, s)
unfolding record_incoming_event
duplicate_at e event_id now s existing h = cc

pub fresh_at :
    (e : Incoming) (event_id : String) (now : UtcDateTime) (s : InboxState)
    → lookup (dedup_key e) s.inbox_registry ≡ none
    → record_incoming_event e event_id now s ≡ ingest e (target_entity e) event_id now s
unfolding record_incoming_event
fresh_at e event_id now s h = cc

recorded :
    (e : Incoming) (event_id : String) (now : UtcDateTime) (s : InboxState)
    → (x : InboxReceipt) × ((lookup
            (dedup_key e)
            (record_incoming_event e event_id now s).1.inbox_registry
          ≡ some x)
        × (x.event_id ≡ (record_incoming_event e event_id now s).0.event_id))
recorded e event_id now s = elim (Option-cases (lookup (dedup_key e) s.inbox_registry)) [
  | inl h ↦
      let same = fresh_at e event_id now s h in
      (
        (record_incoming_event e event_id now s).0,
        (
          subst (λ o. lookup (dedup_key e) o.1.inbox_registry ≡ some o.0) (sym same)
              (ingest-registered e (target_entity e) event_id now s),
          refl,
        ),
      )
  | inr (x, h) ↦
      let same = duplicate_at e event_id now s x h in
      (
        x,
        (
          subst (λ o. lookup (dedup_key e) o.1.inbox_registry ≡ some x) (sym same) h,
          sym (ap (λ o. o.0.event_id) same),
        ),
      )
]

dedup_key-same : (a b : Incoming) → SameEvent a b → dedup_key a ≡ dedup_key b
unfolding dedup_key
dedup_key-same a b (t, (c, x)) = cc

-- Under the key stands a receipt with this identifier.
abbrev IsRegistered : String → String → InboxState → Type 0
IsRegistered key id s =
    (x : InboxReceipt) × ((lookup key s.inbox_registry ≡ some x) × (x.event_id ≡ id))

ingest-elsewhere :
    (key : String) (e : Incoming) (o : Option String) (event_id : String) (now : UtcDateTime)
    (s : InboxState)
    → str_eq (dedup_key e) key ≡ false
    → lookup key (ingest e o event_id now s).1.inbox_registry ≡ lookup key s.inbox_registry
unfolding ingest
ingest-elsewhere key e none event_id now s other =
    let put =
      lookup-insert (dedup_key e) key (new_receipt processed e event_id now) s.inbox_registry in
    ground arith
ingest-elsewhere key e (some x) event_id now s other =
    let late =
      lookup-insert (dedup_key e) key (new_receipt ignored_out_of_order e event_id now)
        s.inbox_registry in
    let done =
      lookup-insert (dedup_key e) key (new_receipt processed e event_id now) s.inbox_registry in
    if_cases
      (λ (o : InboxReceipt × InboxState).
        lookup key o.1.inbox_registry ≡ lookup key s.inbox_registry)
      (is_stale (or_now e.event_timestamp now)
        (lookup (entity_key e.tenant_id x) s.canonical_entity_state))
      (register e (new_receipt ignored_out_of_order e event_id now) s)
      (register e (new_receipt processed e event_id now)
        (set_canonical (entity_key e.tenant_id x) (or_now e.event_timestamp now) e.raw_payload s))
      (λ _. ground arith) (λ _. ground arith)

-- No call replaces a receipt.
record_incoming_event-IsRegistered :
    (key id : String) (e : Incoming) (event_id : String) (now : UtcDateTime) (s : InboxState)
    → IsRegistered key id s
    → IsRegistered key id (record_incoming_event e event_id now s).1
record_incoming_event-IsRegistered key id e event_id now s (x, (h, i)) =
    elim (Option-cases (lookup (dedup_key e) s.inbox_registry)) [
      | inr (y, f) ↦
          subst (λ o. IsRegistered key id o.1) (sym (duplicate_at e event_id now s y f)) (x, (h, i))
      | inl f ↦ elim (Bool-cases (str_eq (dedup_key e) key)) [
        | inl same ↦ let at : dedup_key e ≡ key = str_eq→eq (dedup_key e) key same in absurd (cc)
        | inr other ↦
            subst (λ o. IsRegistered key id o.1) (sym (fresh_at e event_id now s f))
              (x, (ingest-elsewhere key e (target_entity e) event_id now s other ∙ h, i))
      ]
    ]

record_all-IsRegistered :
    (key id : String) (es : List (Incoming × (String × UtcDateTime))) (s : InboxState)
    → IsRegistered key id s
    → IsRegistered key id (record_all es s)
record_all-IsRegistered key id [] s h = h
record_all-IsRegistered key id ((e, (event_id, now)) ∷ es) s h =
    record_all-IsRegistered key id es (record_incoming_event e event_id now s).1
      (record_incoming_event-IsRegistered key id e event_id now s h)

-- An event whose three identifiers came before, with any events in between, is a duplicate: the receipt
-- says so, with the identifier that the first call's receipt had, and nothing is written, whatever else
-- the event carries.
pub record_incoming_event-duplicate :
    (e e' : Incoming) (id id' : String) (now now' : UtcDateTime)
    (between : List (Incoming × (String × UtcDateTime))) (s : InboxState)
    → SameEvent e e'
    → let first = record_incoming_event e id now s in
      let later = record_all between first.1 in
      let again = record_incoming_event e' id' now' later in
      (again.1 ≡ later) × ((again.0.status ≡ duplicate) × (again.0.event_id ≡ first.0.event_id))
record_incoming_event-duplicate e e' id id' now now' between s agree =
    let first = record_incoming_event e id now s in
    let later = record_all between first.1 in
    let (x, (h, from)) =
      record_all-IsRegistered (dedup_key e) first.0.event_id between first.1
        (recorded e id now s) in
    let at : lookup (dedup_key e') later.inbox_registry ≡ some x =
      subst (λ k. lookup k later.inbox_registry ≡ some x) (dedup_key-same e e' agree) h in
    let same = duplicate_at e' id' now' later x at in
    (ap (λ o. o.1) same, (ap (λ o. o.0.status) same, ap (λ o. o.0.event_id) same ∙ from))
