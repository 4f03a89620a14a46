-- ===== src/Action/Ledger/Attempts.antt =====
-- The numbers that action/ledger.py gives to the attempts of an intent.
use rev_pilot_ai.Base.{
  ap, sym, ◌∙◌, if◌then◌else◌, length-sort_by, ℕ, ◌+◌, ◌≡◌, refl, ◌⊎◌, inl, inr, true, false,
  String, none, some, List, [], ◌∷◌, ◌++◌, length, arith, str_eq, str_eq→eq, Bool-cases,
  Option-cases, ap, ◌∙◌, subst,
}
use rev_pilot_ai.Base.Time.{UtcDateTime}
use rev_pilot_ai.Base.Dict.{Nested, Dict, lookup, insert, values, inner, store, find, inner-store}
use rev_pilot_ai.Action.Domain.{ActionLedgerRecord}
use rev_pilot_ai.Action.Repository.{
  update_intent, ActionStore, save_ledger, update_ledger, get_ledger, attempts_of, list_by_intent,
}
use rev_pilot_ai.Action.Ledger.{
  Completion, new_attempt, completed_attempt, record_attempt_start, record_attempt_completion,
}

-- Numbered from `k` upwards, one by one.
abbrev pub NumberedFrom : ℕ → List ActionLedgerRecord → Type 0
NumberedFrom k [] = Unit
NumberedFrom k (r ∷ rs) = (r.attempt_number ≡ k) × NumberedFrom (k + 1) rs

-- Every intent's attempts are numbered 1, 2, … in the order of their storing.
abbrev pub IsNumbered : ActionStore → Type 0
IsNumbered s =
    (t intent_id : String) → NumberedFrom 1 (attempts_of intent_id (values (inner t s.ledger)))

NumberedFrom-append :
    (k : ℕ) (rs : List ActionLedgerRecord) (r : ActionLedgerRecord)
    → NumberedFrom k rs
    → r.attempt_number ≡ k + length rs
    → NumberedFrom k (rs ++ r ∷ [])
NumberedFrom-append k [] r h e = (omega (arith, e), tt)
NumberedFrom-append k (x ∷ rs) r h e =
    (h.0, NumberedFrom-append (k + 1) rs r h.1 (omega (arith, e)))

attempts_of-append :
    (i : String) (rs : List ActionLedgerRecord) (r : ActionLedgerRecord)
    → attempts_of i (rs ++ r ∷ [])
      ≡ (if str_eq r.intent_id i then attempts_of i rs ++ r ∷ [] else attempts_of i rs)
attempts_of-append i [] r = ground arith
attempts_of-append i (x ∷ rs) r = ground (arith, attempts_of-append i rs r)

values-insert_new :
    (k : String) (v : ActionLedgerRecord) (d : Dict ActionLedgerRecord)
    → lookup k d ≡ none
    → values (insert k v d) ≡ values d ++ v ∷ []
unfolding lookup insert values
values-insert_new k v [] h = refl
values-insert_new k v ((j, w) ∷ d) h = ground (arith, h, values-insert_new k v d)

NumberedFrom-replace :
    (i : String) (n : ℕ) (v w : ActionLedgerRecord) (rs : List ActionLedgerRecord)
    → v.intent_id ≡ w.intent_id
    → v.attempt_number ≡ w.attempt_number
    → NumberedFrom n (attempts_of i (w ∷ rs))
    → NumberedFrom n (attempts_of i (v ∷ rs))
NumberedFrom-replace i n v w rs ei en h = elim (Bool-cases (str_eq w.intent_id i)) [
  | inl mine ↦
      let q : str_eq v.intent_id i ≡ true = ap (λ x. str_eq x i) ei ∙ mine in
      let (a, b) = rw mine at h in rw q (en ∙ a, b)
  | inr others ↦
      let q : str_eq v.intent_id i ≡ false = ap (λ x. str_eq x i) ei ∙ others in
      rw q (rw others at h)
]

NumberedFrom-behind :
    (i : String) (n : ℕ) (w : ActionLedgerRecord) (rs rs' : List ActionLedgerRecord)
    → ((m : ℕ) → NumberedFrom m (attempts_of i rs) → NumberedFrom m (attempts_of i rs'))
    → NumberedFrom n (attempts_of i (w ∷ rs))
    → NumberedFrom n (attempts_of i (w ∷ rs'))
NumberedFrom-behind i n w rs rs' f h = elim (Bool-cases (str_eq w.intent_id i)) [
  | inl mine ↦ let (a, b) = rw mine at h in rw mine (a, f (n + 1) b)
  | inr others ↦ rw others (f n (rw others at h))
]

-- Overwriting a record by one of the same intent and number keeps the numbering.
NumberedFrom-overwrite :
    (i k : String) (n : ℕ) (v old : ActionLedgerRecord) (d : Dict ActionLedgerRecord)
    → lookup k d ≡ some old
    → v.intent_id ≡ old.intent_id
    → v.attempt_number ≡ old.attempt_number
    → NumberedFrom n (attempts_of i (values d))
    → NumberedFrom n (attempts_of i (values (insert k v d)))
unfolding lookup insert values
NumberedFrom-overwrite i k n v old [] found ei en h = cc found
NumberedFrom-overwrite i k n v old ((j, w) ∷ d) found ei en h = elim (Bool-cases (str_eq j k)) [
  | inl same ↦
      let one : w ≡ old = ground (arith, same, found) in
      let ids : v.intent_id ≡ w.intent_id = cc (ei, one) in
      let numbers : v.attempt_number ≡ w.attempt_number = cc (en, one) in
      rw same (NumberedFrom-replace i n v w (values d) ids numbers h)
  | inr other ↦
      let rest : lookup k d ≡ some old = ground (arith, other, found) in
      rw other (
        NumberedFrom-behind i n w (values d) (values (insert k v d))
          (λ m. NumberedFrom-overwrite i k m v old d rest ei en) h)
]

insert-NumberedFrom :
    (i : String) (r : ActionLedgerRecord) (d : Dict ActionLedgerRecord)
    → lookup r.ledger_id d ≡ none
    → r.attempt_number ≡ length (attempts_of r.intent_id (values d)) + 1
    → NumberedFrom 1 (attempts_of i (values d))
    → NumberedFrom 1 (attempts_of i (values (insert r.ledger_id r d)))
insert-NumberedFrom i r d free e h =
    rw (values-insert_new r.ledger_id r d free, attempts_of-append i (values d) r)
      (elim (Bool-cases (str_eq r.intent_id i)) [
        | inl mine ↦
            let same : r.intent_id ≡ i = str_eq→eq r.intent_id i mine in
            rw mine (
              NumberedFrom-append 1 (attempts_of i (values d)) r h
                (e ∙ ap (λ x. length (attempts_of x (values d)) + 1) same ∙ omega arith))
        | inr others ↦ rw others h
      ])

get_ledger-inner : (t l : String) (s : ActionStore) → get_ledger t l s ≡ lookup l (inner t s.ledger)
unfolding get_ledger find
get_ledger-inner t l s = refl

length-list_by_intent :
    (t i : String) (s : ActionStore)
    → length (list_by_intent t i s) ≡ length (attempts_of i (values (inner t s.ledger)))
unfolding list_by_intent
length-list_by_intent t i s =
    length-sort_by (λ r. r.attempt_number) (attempts_of i (values (inner t s.ledger)))

store-IsNumbered :
    (r : ActionLedgerRecord) (t i : String) (l : Nested ActionLedgerRecord)
    → ((t' i' : String) → NumberedFrom 1 (attempts_of i' (values (inner t' l))))
    → NumberedFrom 1 (attempts_of i (values (insert r.ledger_id r (inner r.tenant_id l))))
    → NumberedFrom 1 (attempts_of i (values (inner t (store r.tenant_id r.ledger_id r l))))
store-IsNumbered r t i l h new = elim (Bool-cases (str_eq r.tenant_id t)) [
  | inl own ↦ rw (inner-store r.tenant_id r.ledger_id r t l, own) new
  | inr other ↦ rw (inner-store r.tenant_id r.ledger_id r t l, other) (h t i)
]

save_ledger-IsNumbered :
    (r : ActionLedgerRecord) (s : ActionStore)
    → get_ledger r.tenant_id r.ledger_id s ≡ none
    → r.attempt_number ≡ length (list_by_intent r.tenant_id r.intent_id s) + 1
    → IsNumbered s
    → IsNumbered (save_ledger r s)
unfolding save_ledger
save_ledger-IsNumbered r s free e h t i = store-IsNumbered r t i s.ledger h (
    insert-NumberedFrom i r (inner r.tenant_id s.ledger)
      (sym (get_ledger-inner r.tenant_id r.ledger_id s) ∙ free)
      (e ∙ ap (λ n. n + 1) (length-list_by_intent r.tenant_id r.intent_id s)) (h r.tenant_id i))

update_ledger-IsNumbered :
    (r old : ActionLedgerRecord) (s : ActionStore)
    → get_ledger r.tenant_id r.ledger_id s ≡ some old
    → r.intent_id ≡ old.intent_id
    → r.attempt_number ≡ old.attempt_number
    → IsNumbered s
    → IsNumbered (update_ledger r s)
unfolding update_ledger
update_ledger-IsNumbered r old s found ei en h t i = store-IsNumbered r t i s.ledger h (
    NumberedFrom-overwrite i r.ledger_id 1 r old (inner r.tenant_id s.ledger)
      (sym (get_ledger-inner r.tenant_id r.ledger_id s) ∙ found) ei en (h r.tenant_id i))

-- The journal after a start: as it was, or with the attempt added under the next number.
start-ledger :
    (ctx i key provider digest new_id : String) (now : UtcDateTime) (s : ActionStore)
    → let s' = (record_attempt_start ctx i key provider digest new_id now s).1 in
      let r =
        new_attempt ctx i (length (list_by_intent ctx i s) + 1) key provider digest new_id now in
      (s'.ledger ≡ s.ledger) ⊎ (s'.ledger ≡ (save_ledger r s).ledger)
unfolding record_attempt_start save_ledger update_intent
start-ledger ctx i key provider digest new_id now s = ground arith

-- If the attempts of every intent are numbered 1, 2, … without a gap or a repetition, they still are
-- after `record_attempt_start`, whether it returns or raises, provided its fresh identifier is free.
pub record_attempt_start-IsNumbered :
    (ctx i key provider digest new_id : String) (now : UtcDateTime) (s : ActionStore)
    → get_ledger ctx new_id s ≡ none
    → IsNumbered s
    → IsNumbered (record_attempt_start ctx i key provider digest new_id now s).1
record_attempt_start-IsNumbered ctx i key provider digest new_id now s free h t j =
    elim (start-ledger ctx i key provider digest new_id now s) [
      | inl same ↦ rw same (h t j)
      | inr added ↦
          let r =
            new_attempt ctx i (length (list_by_intent ctx i s) + 1) key provider digest new_id
              now in
          rw added (save_ledger-IsNumbered r s free refl h t j)
    ]

completion-ledger :
    (ctx l : String) (c : Completion) (now : UtcDateTime) (s : ActionStore) (r : ActionLedgerRecord)
    → get_ledger ctx l s ≡ some r
    → (record_attempt_completion ctx l c now s).1.ledger
      ≡ (update_ledger (completed_attempt r c now) s).ledger
unfolding record_attempt_completion update_ledger update_intent
completion-ledger ctx l c now s r found = ground arith

completion-none :
    (ctx l : String) (c : Completion) (now : UtcDateTime) (s : ActionStore)
    → get_ledger ctx l s ≡ none
    → (record_attempt_completion ctx l c now s).1 ≡ s
unfolding record_attempt_completion
completion-none ctx l c now s missing = ground arith

-- In a journal whose entries stand under their own tenant and identifier, a completion keeps the
-- numbering of every intent's attempts.
pub record_attempt_completion-IsNumbered :
    (ctx l : String) (c : Completion) (now : UtcDateTime) (s : ActionStore)
    → ((r : ActionLedgerRecord)
        → get_ledger ctx l s ≡ some r
        → (r.tenant_id ≡ ctx) × (r.ledger_id ≡ l))
    → IsNumbered s
    → IsNumbered (record_attempt_completion ctx l c now s).1
record_attempt_completion-IsNumbered ctx l c now s keyed h t j =
    elim (Option-cases (get_ledger ctx l s)) [
      | inl missing ↦ rw (completion-none ctx l c now s missing) (h t j)
      | inr (r, found) ↦
          let (et, el) = keyed r found in
          let own : get_ledger r.tenant_id r.ledger_id s ≡ some r =
            subst (λ x. get_ledger x r.ledger_id s ≡ some r) (sym et)
              (subst (λ y. get_ledger ctx y s ≡ some r) (sym el) found) in
          rw (completion-ledger ctx l c now s r found)
            (update_ledger-IsNumbered (completed_attempt r c now) r s own refl refl h t j)
    ]
