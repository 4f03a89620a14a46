-- ===== src/Action/Ledger/Evolution.antt =====
-- What any calls of action/ledger.py do to the intents and their keys.
use rev_pilot_ai.Base.{
  ◌≡◌, ◌⊎◌, ◌&&◌, inl, inr, false, String, Bool, none, some, arith, str_eq, str_eq→eq, sym, Option,
  List, [], ◌∷◌, refl, ap, ◌∙◌, subst, Option-cases, Bool-cases, length, ◌+◌,
}
use rev_pilot_ai.Base.Time.{UtcDateTime}
use rev_pilot_ai.Base.Dict.{lookup, inner, find, find-store}
use rev_pilot_ai.Approval.Domain.{ApprovalRequestRecord}
use rev_pilot_ai.Action.Domain.{
  ActionClassification, ActionIntentRecord, ActionLedgerRecord, ActionIntentStatus, initialized,
  dispatched, completed, failed, reconciling,
}
use rev_pilot_ai.Action.Repository.{
  ActionStore, save_intent, update_intent, get_by_idempotency_key, get_intent, save_ledger,
  update_ledger, get_ledger, list_by_intent,
}
use rev_pilot_ai.Action.Ledger.{
  create_intent, new_intent, record_attempt_start, record_attempt_completion, Completion, dispatch,
  propagate, propagated, new_attempt, completed_attempt,
}
use rev_pilot_ai.Action.Ledger.Index.{
  IsIndexed, Holds, save_intent-IsIndexed, get_by_idempotency_key-indexed, save_intent-leads,
  get_by_idempotency_key-held,
}
use rev_pilot_ai.Action.Ledger.Calls.{
  LedgerCall, creates, starts, completes, perform_call, perform_calls, empty_store, IsNew, IsFresh,
  AreFresh,
}

pub empty_store-IsIndexed : IsIndexed empty_store
unfolding find inner lookup
empty_store-IsIndexed t j x e = absurd (cc)

-- The index stays right, and no intent goes away, changes but for its status, or loses its key.
abbrev pub Evolves : ActionStore → ActionStore → Type 0
Evolves s s' =
    IsIndexed s' × ((key : String) (i : ActionIntentRecord) → Holds key i s → Holds key i s')

update_intent-Evolves :
    (t j : String) (x : ActionIntentRecord) (st : ActionIntentStatus) (s : ActionStore)
    → find t j s.intents ≡ some x
    → IsIndexed s
    → Evolves s (update_intent (record x { status = st }) s)
unfolding update_intent save_intent
update_intent-Evolves t j x st s found h =
    let ((t_at, j_at), (named, key)) = h t j x found in
    (
      save_intent-IsIndexed (record x { status = st }) s
          (subst (λ z. str_eq z "" ≡ false) (sym j_at) named)
          (λ j' y e same_key. let other = (h x.tenant_id j' y e).1.1 in cc) h,
      λ k i held. holds k i held,
    )
  where
    holds :
        (k : String) (i : ActionIntentRecord)
        → Holds k i s
        → Holds k i (update_intent (record x { status = st }) s)
    holds k i (lead, (st0, e)) =
        let x' = record x { status = st } in
        let leads =
          save_intent-leads x' (record i { status = st0 }) s i.tenant_id k i.intent_id e lead
            (λ t_at k_at. let own = h t j x found in cc) in
        let put =
          find-store x.tenant_id x.intent_id (record x { status = st }) i.tenant_id i.intent_id
            s.intents in
        elim (Bool-cases (str_eq x.tenant_id i.tenant_id && str_eq x.intent_id i.intent_id)) [
          | inl own ↦
              let t_at = str_eq→eq x.tenant_id i.tenant_id (ground arith) in
              let j_at = str_eq→eq x.intent_id i.intent_id (ground arith) in
              let ((t_own, j_own), rest) = h t j x found in
              let one : x ≡ record i { status = st0 } = cc in
              (
                leads,
                (
                  st,
                  ground (arith, put, own)
                      ∙ ap {A = ActionIntentRecord} (λ y. some (record y { status = st })) one,
                ),
              )
          | inr other ↦ (leads, (st0, ground (arith, put, other, e)))
        ]

save_intent-Evolves :
    (i : ActionIntentRecord) (s : ActionStore)
    → IsNew i.tenant_id i.intent_id s
    → get_by_idempotency_key i.tenant_id i.idempotency_key s ≡ none
    → IsIndexed s
    → Evolves s (save_intent i s)
unfolding save_intent
save_intent-Evolves i s (named, free) unknown h = (
  save_intent-IsIndexed i s named
      (λ j y e same_key.
        let known = get_by_idempotency_key-indexed i.tenant_id j y s h e in absurd (cc))
      h,
  λ k x held. holds k x held,
)
  where
    holds : (k : String) (x : ActionIntentRecord) → Holds k x s → Holds k x (save_intent i s)
    holds k x (lead, (st, e)) =
        let known = get_by_idempotency_key-held k x st s h lead e in
        let leads =
          save_intent-leads i (record x { status = st }) s x.tenant_id k x.intent_id e lead
            (λ t_at k_at. absurd (cc)) in
        let put = find-store i.tenant_id i.intent_id i x.tenant_id x.intent_id s.intents in
        elim (Bool-cases (str_eq i.tenant_id x.tenant_id && str_eq i.intent_id x.intent_id)) [
          | inl own ↦
              let t_at = str_eq→eq i.tenant_id x.tenant_id (ground arith) in
              let j_at = str_eq→eq i.intent_id x.intent_id (ground arith) in absurd (cc)
          | inr other ↦ (leads, (st, ground (arith, put, other, e)))
        ]

create_intent-state :
    (ctx : String) (a : ApprovalRequestRecord) (key : String) (c : ActionClassification)
    (dry : Bool) (new_id : String) (now : UtcDateTime) (s : ActionStore)
    → ((create_intent ctx a key c dry new_id now s).1 ≡ s)
      ⊎ ((get_by_idempotency_key ctx key s ≡ none)
          × ((create_intent ctx a key c dry new_id now s).1
              ≡ save_intent (new_intent ctx a key c dry new_id now) s))
unfolding create_intent
create_intent-state ctx a key c dry new_id now s = ground arith

dispatch-state :
    (st : ActionIntentStatus) (x : ActionIntentRecord) (s : ActionStore)
    → ((dispatch st x s).1 ≡ s)
      ⊎ ((dispatch st x s).1 ≡ update_intent (record x { status = dispatched }) s)
dispatch-state initialized x s = inr refl
dispatch-state dispatched x s = inl refl
dispatch-state completed x s = inl refl
dispatch-state failed x s = inl refl
dispatch-state reconciling x s = inl refl

propagate-state :
    (x : ActionIntentRecord) (p : Option ActionIntentStatus) (s : ActionStore)
    → ((propagate (some x) p s).1 ≡ s)
      ⊎ ((st : ActionIntentStatus) × ((propagate (some x) p s).1
            ≡ update_intent (record x { status = st }) s))
propagate-state x none s = inl refl
propagate-state x (some st) s = inr (st, refl)

same-Evolves : (s : ActionStore) → IsIndexed s → Evolves s s
same-Evolves s h = (h, λ k i held. held)

-- The journal is no part of it.
update_ledger-Evolves :
    (r : ActionLedgerRecord) (s : ActionStore) → IsIndexed s → Evolves s (update_ledger r s)
unfolding update_ledger
update_ledger-Evolves r s h = (h, λ k i held. held)

then_update :
    (t j : String) (x : ActionIntentRecord) (st : ActionIntentStatus) (s s1 : ActionStore)
    → find t j s1.intents ≡ some x
    → Evolves s s1
    → Evolves s (update_intent (record x { status = st }) s1)
then_update t j x st s s1 found (h, kept) =
    let (h', kept') = update_intent-Evolves t j x st s1 found h in
    (h', λ k i held. kept' k i (kept k i held))

start-missing :
    (ctx i key provider digest new_id : String) (now : UtcDateTime) (s : ActionStore)
    → get_intent ctx i s ≡ none
    → (record_attempt_start ctx i key provider digest new_id now s).1 ≡ s
unfolding record_attempt_start
start-missing ctx i key provider digest new_id now s missing = cc

start-found :
    (ctx i key provider digest new_id : String) (now : UtcDateTime) (s : ActionStore)
    (x : ActionIntentRecord)
    → get_intent ctx i s ≡ some x
    → let n = length (list_by_intent ctx i s) + 1 in
      (record_attempt_start ctx i key provider digest new_id now s).1
      ≡ (dispatch x.status x (save_ledger (new_attempt ctx i n key provider digest new_id now) s)).1
unfolding record_attempt_start
start-found ctx i key provider digest new_id now s x found = ground (arith, found)

start-Evolves :
    (ctx i key provider digest new_id : String) (now : UtcDateTime) (s : ActionStore)
    → IsIndexed s
    → Evolves s (record_attempt_start ctx i key provider digest new_id now s).1
unfolding get_intent save_ledger
start-Evolves ctx i key provider digest new_id now s h = elim (Option-cases (get_intent ctx i s)) [
  | inl missing ↦
      subst (Evolves s) (sym (start-missing ctx i key provider digest new_id now s missing))
        (same-Evolves s h)
  | inr (x, found) ↦
      let n = length (list_by_intent ctx i s) + 1 in
      let s1 = save_ledger (new_attempt ctx i n key provider digest new_id now) s in
      let filed : Evolves s s1 = (h, λ k y held. held) in
      subst (Evolves s) (sym (start-found ctx i key provider digest new_id now s x found))
        (elim (dispatch-state x.status x s1) [
          | inl e ↦ subst (Evolves s) (sym e) filed
          | inr e ↦ subst (Evolves s) (sym e) (then_update ctx i x dispatched s s1 found filed)
        ])
]

propagate-Evolves :
    (t j : String) (p : Option ActionIntentStatus) (s s1 : ActionStore)
    → Evolves s s1
    → Evolves s (propagate (get_intent t j s1) p s1).1
unfolding get_intent
propagate-Evolves t j p s s1 kept = elim (Option-cases (get_intent t j s1)) [
  | inl missing ↦ subst (λ o. Evolves s (propagate o p s1).1) (sym missing) kept
  | inr (x, found) ↦
      subst (λ o. Evolves s (propagate o p s1).1) (sym found)
        (elim (propagate-state x p s1) [
          | inl e ↦ subst (Evolves s) (sym e) kept
          | inr (st, e) ↦ subst (Evolves s) (sym e) (then_update t j x st s s1 found kept)
        ])
]

complete-missing :
    (ctx l : String) (c : Completion) (now : UtcDateTime) (s : ActionStore)
    → get_ledger ctx l s ≡ none
    → (record_attempt_completion ctx l c now s).1 ≡ s
unfolding record_attempt_completion
complete-missing ctx l c now s missing = cc

complete-found :
    (ctx l : String) (c : Completion) (now : UtcDateTime) (s : ActionStore) (r : ActionLedgerRecord)
    → get_ledger ctx l s ≡ some r
    → let s1 = update_ledger (completed_attempt r c now) s in
      (record_attempt_completion ctx l c now s).1
      ≡ (propagate (get_intent ctx r.intent_id s1) (propagated c.status) s1).1
unfolding record_attempt_completion
complete-found ctx l c now s r found = ground (arith, found)

complete-Evolves :
    (ctx l : String) (c : Completion) (now : UtcDateTime) (s : ActionStore)
    → IsIndexed s
    → Evolves s (record_attempt_completion ctx l c now s).1
complete-Evolves ctx l c now s h = elim (Option-cases (get_ledger ctx l s)) [
  | inl missing ↦
      subst (Evolves s) (sym (complete-missing ctx l c now s missing)) (same-Evolves s h)
  | inr (r, found) ↦
      let s1 = update_ledger (completed_attempt r c now) s in
      subst (Evolves s) (sym (complete-found ctx l c now s r found)) (
        propagate-Evolves ctx r.intent_id (propagated c.status) s s1
          (update_ledger-Evolves (completed_attempt r c now) s h))
]

pub perform_call-Evolves :
    (q : LedgerCall) (s : ActionStore) → IsFresh q s → IsIndexed s → Evolves s (perform_call q s)
perform_call-Evolves (creates ctx a key c dry new_id now) s fresh h =
    elim (create_intent-state ctx a key c dry new_id now s) [
      | inl e ↦ subst (Evolves s) (sym e) (same-Evolves s h)
      | inr (unknown, e) ↦
          subst (Evolves s) (sym e)
            (save_intent-Evolves (new_intent ctx a key c dry new_id now) s fresh unknown h)
    ]
perform_call-Evolves (starts ctx i key provider digest new_id now) s fresh h =
    start-Evolves ctx i key provider digest new_id now s h
perform_call-Evolves (completes ctx l c now) s fresh h = complete-Evolves ctx l c now s h

pub perform_calls-Evolves :
    (qs : List LedgerCall) (s : ActionStore)
    → AreFresh qs s
    → IsIndexed s
    → Evolves s (perform_calls qs s)
perform_calls-Evolves [] s fresh h = same-Evolves s h
perform_calls-Evolves (q ∷ qs) s (fresh, later) h =
    let (h1, kept1) = perform_call-Evolves q s fresh h in
    let (h2, kept2) = perform_calls-Evolves qs (perform_call q s) later h1 in
    (h2, λ k i held. kept2 k i (kept1 k i held))
