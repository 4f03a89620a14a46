-- ===== src/Action/Ledger/Index.antt =====
-- The index of idempotency keys in action/ports.py, over any calls of action/ledger.py.
use rev_pilot_ai.Base.{
  ◌≡◌, ◌&&◌, inl, inr, false, String, none, some, arith, str_eq, str_eq→eq, eq→str_eq, sym, [], ap,
  subst, Option-cases, Bool-cases,
}
use rev_pilot_ai.Base.Dict.{Nested, lookup, insert, inner, find, find-store, lookup-insert}
use rev_pilot_ai.Action.Domain.{ActionIntentRecord, ActionIntentStatus}
use rev_pilot_ai.Action.Repository.{ActionStore, save_intent, get_by_idempotency_key, index_for}

-- Every stored intent stands under its own tenant and identifier, which is not empty, and its key leads
-- to it.
abbrev pub IsIndexed : ActionStore → Type 0
IsIndexed s =
    (t j : String) (x : ActionIntentRecord)
    → find t j s.intents ≡ some x
    → ((x.tenant_id ≡ t) × (x.intent_id ≡ j))
      × ((str_eq j "" ≡ false) × (find t x.idempotency_key s.idempotency_index ≡ some j))

-- The key leads to the intent, and it stands in the store, but for its status.
abbrev pub Holds : String → ActionIntentRecord → ActionStore → Type 0
Holds key i s =
    (find i.tenant_id key s.idempotency_index ≡ some i.intent_id)
    × ((st : ActionIntentStatus) × (find i.tenant_id i.intent_id s.intents
          ≡ some (record i { status = st })))

find-absent : {V : Type 0} (t k : String) (n : Nested V) → lookup t n ≡ none → find t k n ≡ none
unfolding find inner lookup
find-absent t k n e = ground (arith, e)

find-insert_other :
    (t u k : String) (n : Nested String)
    → str_eq t u ≡ false
    → find u k (insert t [] n) ≡ find u k n
unfolding find inner
find-insert_other t u k n other = let put = lookup-insert t u [] n in ground (arith, other)

-- Making room for a tenant's keys changes no key of a stored intent.
find-index_for :
    (t u j k : String) (x : ActionIntentRecord) (s : ActionStore)
    → find u j s.intents ≡ some x
    → find u k (index_for t s) ≡ find u k s.idempotency_index
find-index_for t u j k x s e = elim (Option-cases (lookup t s.intents)) [
  | inr (d, f) ↦ cc
  | inl f ↦ elim (Bool-cases (str_eq t u)) [
    | inl same ↦
        let at : t ≡ u = str_eq→eq t u same in let gone = find-absent t j s.intents f in absurd (cc)
    | inr other ↦ let put = find-insert_other t u k s.idempotency_index other in cc
  ]
]

pub save_intent-IsIndexed :
    (i : ActionIntentRecord) (s : ActionStore)
    → str_eq i.intent_id "" ≡ false
    → ((j : String) (y : ActionIntentRecord)
        → find i.tenant_id j s.intents ≡ some y
        → y.idempotency_key ≡ i.idempotency_key
        → j ≡ i.intent_id)
    → IsIndexed s
    → IsIndexed (save_intent i s)
unfolding save_intent
save_intent-IsIndexed i s named only h t j x e =
    let put = find-store i.tenant_id i.intent_id i t j s.intents in
    let key =
      find-store i.tenant_id i.idempotency_key i.intent_id t x.idempotency_key
        (index_for i.tenant_id s) in
    elim (Bool-cases (str_eq i.tenant_id t && str_eq i.intent_id j)) [
      | inl own ↦
          let same : x ≡ i = ground arith in
          let t_at : i.tenant_id ≡ t = str_eq→eq i.tenant_id t (ground arith) in
          let j_at : i.intent_id ≡ j = str_eq→eq i.intent_id j (ground arith) in
          let k_at =
            eq→str_eq i.idempotency_key x.idempotency_key
              (sym (ap (λ y. y.idempotency_key) same)) in
          ((cc, cc), (cc, ground arith))
      | inr other ↦
          let old : find t j s.intents ≡ some x = ground arith in
          let (where_at, (n, k)) = h t j x old in
          let kept = find-index_for i.tenant_id t j x.idempotency_key x s old in
          (
            where_at,
            (
              n,
              elim (Bool-cases
                  (str_eq i.tenant_id t && str_eq i.idempotency_key x.idempotency_key)) [
                    | inl clash ↦
                        let t_at : i.tenant_id ≡ t = str_eq→eq i.tenant_id t (ground arith) in
                        let k_at = str_eq→eq i.idempotency_key x.idempotency_key (ground arith) in
                        let j_at =
                          only j x (subst (λ z. find z j s.intents ≡ some x) (sym t_at) old)
                            (sym k_at) in
                        ground arith
                    | inr apart ↦ ground arith
                  ],
            ),
          )
    ]

-- A stored intent is found by its key.
pub get_by_idempotency_key-indexed :
    (t j : String) (x : ActionIntentRecord) (s : ActionStore)
    → IsIndexed s
    → find t j s.intents ≡ some x
    → get_by_idempotency_key t x.idempotency_key s ≡ some x
unfolding get_by_idempotency_key
get_by_idempotency_key-indexed t j x s h e =
    let (own, (named, key)) = h t j x e in ground (arith, named, key, e)

pub save_intent-leads :
    (i x : ActionIntentRecord) (s : ActionStore) (t k j : String)
    → find t j s.intents ≡ some x
    → find t k s.idempotency_index ≡ some j
    → (i.tenant_id ≡ t → i.idempotency_key ≡ k → i.intent_id ≡ j)
    → find t k (save_intent i s).idempotency_index ≡ some j
unfolding save_intent
save_intent-leads i x s t k j e lead same =
    let key = find-store i.tenant_id i.idempotency_key i.intent_id t k (index_for i.tenant_id s) in
    let kept = find-index_for i.tenant_id t j k x s e in
    elim (Bool-cases (str_eq i.tenant_id t && str_eq i.idempotency_key k)) [
      | inl clash ↦
          let t_at = str_eq→eq i.tenant_id t (ground arith) in
          let k_at = str_eq→eq i.idempotency_key k (ground arith) in
          let j_at = same t_at k_at in ground arith
      | inr apart ↦ ground arith
    ]

-- A key that leads to an intent is known.
pub get_by_idempotency_key-held :
    (key : String) (i : ActionIntentRecord) (st : ActionIntentStatus) (s : ActionStore)
    → IsIndexed s
    → find i.tenant_id key s.idempotency_index ≡ some i.intent_id
    → find i.tenant_id i.intent_id s.intents ≡ some (record i { status = st })
    → get_by_idempotency_key i.tenant_id key s ≡ some (record i { status = st })
unfolding get_by_idempotency_key
get_by_idempotency_key-held key i st s h lead e =
    let (own, (named, own_key)) = h i.tenant_id i.intent_id (record i { status = st }) e in
    ground (arith, named, lead, e)

-- An intent that a key finds stands under the tenant and under its own identifier.
pub get_by_idempotency_key-Holds :
    (t key : String) (i : ActionIntentRecord) (s : ActionStore)
    → IsIndexed s
    → get_by_idempotency_key t key s ≡ some i
    → (i.tenant_id ≡ t) × Holds key i s
unfolding get_by_idempotency_key
get_by_idempotency_key-Holds t key i s h known =
    elim (Option-cases (find t key s.idempotency_index)) [
      | inl missing ↦ absurd (ground (arith, missing, known))
      | inr (j, lead) ↦
          let e : find t j s.intents ≡ some i = ground (arith, lead, known) in
          let ((t_at, j_at), rest) = h t j i e in
          let own : find i.tenant_id key s.idempotency_index ≡ some i.intent_id = cc in
          let there : find i.tenant_id i.intent_id s.intents ≡ some i = cc in
          (t_at, (own, (i.status, there)))
    ]
