-- ===== src/Action/Ledger/Idempotency.antt =====
-- `create_intent` of action/ledger.py and the idempotency keys of a tenant.
use rev_pilot_ai.Base.{
  List, subst, ◌≡◌, ◌⊎◌, inl, inr, true, false, String, Bool, none, some, ok, arith, str_eq,
  eq→str_eq, sym,
}
use rev_pilot_ai.Base.Time.{UtcDateTime}
use rev_pilot_ai.Approval.Domain.{ApprovalRequestRecord, approved}
use rev_pilot_ai.Action.Domain.{ActionClassification, ActionIntentRecord, ActionIntentStatus}
use rev_pilot_ai.Action.Repository.{
  ActionStore, save_intent, get_by_idempotency_key, get_by_idempotency_key-save_intent,
}
use rev_pilot_ai.Action.Ledger.{create_intent, new_intent}
use rev_pilot_ai.Action.Ledger.Index.{
  IsIndexed, get_by_idempotency_key-Holds, get_by_idempotency_key-held,
}
use rev_pilot_ai.Action.Ledger.Calls.{
  LedgerCall, creates, perform_calls, empty_store, IsNew, AreFresh,
}
use rev_pilot_ai.Action.Ledger.Evolution.{
  empty_store-IsIndexed, perform_call-Evolves, perform_calls-Evolves,
}

module _ (ctx : String) (a : ApprovalRequestRecord) (key : String) (c : ActionClassification)
    (dry : Bool) (new_id : String) (now : UtcDateTime) (s : ActionStore) where
  -- A call that returns: the key was known and nothing is written; or it was new, and the intent is
  -- stored.
  create_intent-cases :
      {i : ActionIntentRecord} {s' : ActionStore}
      → create_intent ctx a key c dry new_id now s ≡ (ok i, s')
      → ((get_by_idempotency_key ctx key s ≡ some i) × (s' ≡ s))
        ⊎ ((get_by_idempotency_key ctx key s ≡ none)
            × ((dry ≡ true) ⊎ (a.status ≡ approved))
            × (i ≡ new_intent ctx a key c dry new_id now)
            × (s' ≡ save_intent i s))
  unfolding create_intent
  create_intent-cases h = ground arith

  create_intent-known :
      (i : ActionIntentRecord)
      → str_eq ctx a.tenant_id ≡ true
      → get_by_idempotency_key ctx key s ≡ some i
      → create_intent ctx a key c dry new_id now s ≡ (ok i, s)
  unfolding create_intent
  create_intent-known i own known = ground (arith, own, known)

-- A call that returns leaves its key leading to the intent that it returned.
create_intent-knows :
    (ctx : String) (a : ApprovalRequestRecord) (key : String) (c : ActionClassification)
    (dry : Bool) (new_id : String) (now : UtcDateTime) (s s' : ActionStore) (i : ActionIntentRecord)
    → str_eq new_id "" ≡ false
    → create_intent ctx a key c dry new_id now s ≡ (ok i, s')
    → get_by_idempotency_key ctx key s' ≡ some i
create_intent-knows ctx a key c dry new_id now s s' i h e =
    elim (create_intent-cases ctx a key c dry new_id now s e) [
      | inl (old, same) ↦ rw same old
      | inr (free, allowed, fresh, saved) ↦
          let n = new_intent ctx a key c dry new_id now in
          cc (get_by_idempotency_key-save_intent n s h, fresh, saved)
    ]

-- The calls `before` on empty repositories, then a `create_intent` that returns an intent `i`, then the
-- calls `between`: a further `create_intent` with that key, for any approval of the tenant in any status,
-- dry run or not, returns `i` as it then stands, changed in nothing but its status, and writes nothing.
-- The fresh identifiers of the intents are not empty and do not repeat within a tenant.
pub create_intent-idempotent :
    (before between : List LedgerCall) (ctx : String) (a a' : ApprovalRequestRecord) (key : String)
    (c c' : ActionClassification) (dry dry' : Bool) (new_id new_id' : String)
    (now now' : UtcDateTime) (s : ActionStore) (i : ActionIntentRecord)
    → AreFresh before empty_store
    → IsNew ctx new_id (perform_calls before empty_store)
    → create_intent ctx a key c dry new_id now (perform_calls before empty_store) ≡ (ok i, s)
    → AreFresh between s
    → a'.tenant_id ≡ ctx
    → (st : ActionIntentStatus) × (create_intent ctx a' key c' dry' new_id' now'
          (perform_calls between s)
        ≡ (ok (record i { status = st }), perform_calls between s))
create_intent-idempotent before between ctx a a' key c c' dry dry' new_id new_id' now now' s i fresh
      new e later own =
    let s0 = perform_calls before empty_store in
    let (h0, _) = perform_calls-Evolves before empty_store fresh empty_store-IsIndexed in
    let (h1, _) = perform_call-Evolves (creates ctx a key c dry new_id now) s0 new h0 in
    let h : IsIndexed s = subst (λ o. IsIndexed o.1) e h1 in
    let knows = create_intent-knows ctx a key c dry new_id now s0 s i new.0 e in
    let (t_at, held) = get_by_idempotency_key-Holds ctx key i s h knows in
    let (h2, kept) = perform_calls-Evolves between s later h in
    let (lead, (st, there)) = kept key i held in
    let s2 = perform_calls between s in
    let known : get_by_idempotency_key ctx key s2 ≡ some (record i { status = st }) =
      subst (λ t. get_by_idempotency_key t key s2 ≡ some (record i { status = st })) t_at
        (get_by_idempotency_key-held key i st s2 h2 lead there) in
    (
      st,
      create_intent-known ctx a' key c' dry' new_id' now' s2 (record i { status = st })
          (eq→str_eq ctx a'.tenant_id (sym own)) known,
    )
