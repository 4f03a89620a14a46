-- ===== src/Connectors/Inbox/Order.antt =====
-- Late events at the inbox of connectors/ingestion/inbox.py.
use rev_pilot_ai.Base.{
  if_cases, String, true, false, Option, none, some, ◌≡◌, inl, inr, arith, refl, ◌≤◌, List, [], ◌∷◌,
  Option-cases, Bool-cases, str_eq, str_eq→eq, ltb, sym, subst,
}
use rev_pilot_ai.Base.Time.{UtcDateTime}
use rev_pilot_ai.Base.Dict.{Dict, lookup, lookup-insert, lookup-insert-same}
use rev_pilot_ai.Connectors.Inbox.{
  Incoming, InboxReceipt, InboxState, processed, ignored_out_of_order, Payload, dedup_key,
  entity_key, target_entity, ingest, record_incoming_event, record_all, new_receipt, or_now,
  is_stale, register, set_canonical,
}
use rev_pilot_ai.Connectors.Inbox.Repeats.{duplicate_at, fresh_at}

-- The canonical state of `key` is of the time `t` or later.
abbrev pub IsCurrent : String → UtcDateTime → InboxState → Type 0
IsCurrent key t s =
    (t' : UtcDateTime) × ((p : Payload) × ((lookup key s.canonical_entity_state ≡ some (t', p))
        × (t ≤ t')))

not_stale :
    {t : UtcDateTime} (ts t' : UtcDateTime) (q : Payload) (d : Dict (UtcDateTime × Payload))
    (k : String)
    → is_stale ts (lookup k d) ≡ false
    → lookup k d ≡ some (t', q)
    → t ≤ t'
    → t ≤ ts
not_stale ts t' q d k fresh h le =
    let later : ltb ts t' ≡ false = subst (λ o. is_stale ts o ≡ false) h fresh in ground arith

set_canonical-IsCurrent :
    (key k : String) (t ts : UtcDateTime) (p : Payload) (s : InboxState)
    → is_stale ts (lookup k s.canonical_entity_state) ≡ false
    → IsCurrent key t s
    → IsCurrent key t (set_canonical k ts p s)
set_canonical-IsCurrent key k t ts p s fresh (t', (q, (h, le))) =
    let put = lookup-insert k key (ts, p) s.canonical_entity_state in
    elim (Bool-cases (str_eq k key)) [
      | inl e ↦
          let at : k ≡ key = str_eq→eq k key e in
          (
            ts,
            (
              p,
              (
                ground arith,
                not_stale ts t' q s.canonical_entity_state k fresh
                    (subst (λ z. lookup z s.canonical_entity_state ≡ some (t', q)) (sym at) h) le,
              ),
            ),
          )
      | inr e ↦ (t', (q, (ground arith, le)))
    ]

ingest-IsCurrent :
    (key : String) (t : UtcDateTime) (e : Incoming) (o : Option String) (event_id : String)
    (now : UtcDateTime) (s : InboxState)
    → IsCurrent key t s
    → IsCurrent key t (ingest e o event_id now s).1
unfolding ingest
ingest-IsCurrent key t e none event_id now s h = h
ingest-IsCurrent key t e (some x) event_id now s h =
    if_cases (λ (o : InboxReceipt × InboxState). IsCurrent key t o.1)
      (is_stale (or_now e.event_timestamp now)
        (lookup (entity_key e.tenant_id x) s.canonical_entity_state))
      (register e (new_receipt ignored_out_of_order e event_id now) s)
      (register e (new_receipt processed e event_id now)
        (set_canonical (entity_key e.tenant_id x) (or_now e.event_timestamp now) e.raw_payload s))
      (λ _. h)
      (λ fresh.
        set_canonical-IsCurrent key (entity_key e.tenant_id x) t (or_now e.event_timestamp now)
          e.raw_payload s fresh h)

record_incoming_event-IsCurrent :
    (key : String) (t : UtcDateTime) (e : Incoming) (event_id : String) (now : UtcDateTime)
    (s : InboxState)
    → IsCurrent key t s
    → IsCurrent key t (record_incoming_event e event_id now s).1
record_incoming_event-IsCurrent key t e event_id now s h =
    elim (Option-cases (lookup (dedup_key e) s.inbox_registry)) [
      | inl f ↦
          subst (λ o. IsCurrent key t o.1) (sym (fresh_at e event_id now s f))
            (ingest-IsCurrent key t e (target_entity e) event_id now s h)
      | inr (x, f) ↦ subst (λ o. IsCurrent key t o.1) (sym (duplicate_at e event_id now s x f)) h
    ]

record_all-IsCurrent :
    (key : String) (t : UtcDateTime) (es : List (Incoming × (String × UtcDateTime)))
    (s : InboxState)
    → IsCurrent key t s
    → IsCurrent key t (record_all es s)
record_all-IsCurrent key t [] s h = h
record_all-IsCurrent key t ((e, (event_id, now)) ∷ es) s h =
    record_all-IsCurrent key t es (record_incoming_event e event_id now s).1
      (record_incoming_event-IsCurrent key t e event_id now s h)

superseded :
    (ts : UtcDateTime) (o : Option (UtcDateTime × Payload))
    → is_stale ts o ≡ true
    → (t' : UtcDateTime) × ((p : Payload) × ((o ≡ some (t', p)) × (ts ≤ t')))
superseded ts none stale = absurd (cc)
superseded ts (some (t', p)) stale = (t', (p, (refl, ground arith)))

ingested :
    (e : Incoming) (x event_id : String) (now : UtcDateTime) (s : InboxState)
    → IsCurrent
        (entity_key e.tenant_id x)
        (or_now e.event_timestamp now)
        (ingest e (some x) event_id now s).1
unfolding ingest
ingested e x event_id now s =
    let ts = or_now e.event_timestamp now in
    let key = entity_key e.tenant_id x in
    if_cases (λ (o : InboxReceipt × InboxState). IsCurrent key ts o.1)
      (is_stale ts (lookup key s.canonical_entity_state))
      (register e (new_receipt ignored_out_of_order e event_id now) s)
      (register e (new_receipt processed e event_id now) (set_canonical key ts e.raw_payload s))
      (λ stale. superseded ts (lookup key s.canonical_entity_state) stale)
      (λ _. (
        ts,
        (
          e.raw_payload,
          (lookup-insert-same key (ts, e.raw_payload) s.canonical_entity_state, ground arith),
        ),
      ))

-- A new event that names an entity: whatever events follow, late ones included, the entity's canonical
-- state is of that event's time or later.
pub record_all-latest :
    (e : Incoming) (x event_id : String) (now : UtcDateTime)
    (es : List (Incoming × (String × UtcDateTime))) (s : InboxState)
    → lookup (dedup_key e) s.inbox_registry ≡ none
    → target_entity e ≡ some x
    → IsCurrent
        (entity_key e.tenant_id x)
        (or_now e.event_timestamp now)
        (record_all ((e, (event_id, now)) ∷ es) s)
record_all-latest e x event_id now es s new names =
    record_all-IsCurrent (entity_key e.tenant_id x) (or_now e.event_timestamp now) es
      (record_incoming_event e event_id now s).1
      (subst (λ o. IsCurrent (entity_key e.tenant_id x) (or_now e.event_timestamp now) o.1)
        (sym (fresh_at e event_id now s new))
        (subst
          (λ o.
            IsCurrent (entity_key e.tenant_id x) (or_now e.event_timestamp now)
              (ingest e o event_id now s).1)
          (sym names) (ingested e x event_id now s)))
