-- ===== src/Approval/Service/Expiry.antt =====
-- `expire_stale_requests` of approval/service.py: which requests it expires, and how many it counts.
use rev_pilot_ai.Base.{
  ℕ, ◌+◌, ◌≤◌, ◌≡◌, refl, ◌⊎◌, inl, inr, true, String, some, List, [], ◌∷◌, All, All-keep_if,
  All-weaken, All-sort_by, Among, Among-keep_if, Among-sort_by, arith, str_eq, str_eq_self,
  str_eq→eq, Bool-cases, leb→le, ◌∙◌, subst, sym, ap, if◌then◌else◌, Option-cases, ◌&&◌,
}
use mathlib.Core.Option
use rev_pilot_ai.Base.Time.{UtcDateTime}
use rev_pilot_ai.Base.Dict.{inner, find, values, lookup}
use rev_pilot_ai.Base.Dict.Entries.{values-IsHeld, inner-Entries, lookup-Among}
use rev_pilot_ai.Approval.Domain.{ApprovalRequestRecord, pending, is_pending}
use rev_pilot_ai.Approval.Repository.{Storage, get, update, get-update, list_pending}
use rev_pilot_ai.Approval.Service.Change.{
  is_stale, expired_record, expire_each, expire_stale_requests,
}
use rev_pilot_ai.Approval.Service.Sound.{OwnPlace, IsKeyed, get-OwnPlace}

-- A pending request of the tenant, as the storage holds it.
abbrev pub Listed : String → Storage → ApprovalRequestRecord → Type 0
Listed t s r = (get t r.approval_id s ≡ some r) × (r.tenant_id ≡ t) × (r.status ≡ pending)

is_pending→pending : (r : ApprovalRequestRecord) → is_pending r.status ≡ true → r.status ≡ pending
is_pending→pending r h = ground arith

held-Listed :
    (t : String) (s : Storage) (r : ApprovalRequestRecord)
    → ((k : String) × (lookup k (inner t s) ≡ some r) × OwnPlace t k r)
      × (is_pending r.status ≡ true)
    → Listed t s r
unfolding get find
held-Listed t s r ((k, found, (et, ea)), p) =
    (subst (λ x. lookup x (inner t s) ≡ some r) (sym ea) found, et, is_pending→pending r p)

pub list_pending-Listed :
    (t : String) (s : Storage) → IsKeyed s → All (Listed t s) (list_pending t s)
unfolding list_pending
list_pending-Listed t s k =
    All-sort_by (Listed t s) (λ r. r.created_at) _
      (All-weaken _ (held-Listed t s) (
        All-keep_if _ (λ r. is_pending r.status) (values (inner t s))
          (values-IsHeld (OwnPlace t) (inner t s) (inner-Entries OwnPlace t s k))))

get-Among-list_pending :
    (t a : String) (s : Storage) {r : ApprovalRequestRecord}
    → get t a s ≡ some r
    → r.status ≡ pending
    → Among r (list_pending t s)
unfolding get find list_pending
get-Among-list_pending t a s {r} found waiting =
    Among-sort_by (λ x. x.created_at) r _
      (Among-keep_if (λ x. is_pending x.status) r _ (rw waiting refl)
        (lookup-Among a (inner t s) found))

module _ (now : UtcDateTime) (t : String) (s : Storage) where
  -- A place that the loop has left alone, or that held a stale request and now holds it expired.
  abbrev pub Faded : String → Storage → Type 0
  Faded b s' =
      (get t b s' ≡ get t b s)
      ⊎ ((r : ApprovalRequestRecord) × (get t b s ≡ some r)
          × (r.status ≡ pending)
          × (r.expiry_time ≤ now)
          × (get t b s' ≡ some (expired_record r)))

  Faded-update :
      (b : String) (r : ApprovalRequestRecord) (s' : Storage)
      → Listed t s r
      → is_stale now r ≡ true
      → Faded b s'
      → Faded b (update (expired_record r) s')
  Faded-update b r s' (found, et, waiting) stale f = elim (Bool-cases (str_eq r.approval_id b)) [
    | inl same ↦ inr (
      r,
      rw (← str_eq→eq r.approval_id b same) found,
      waiting,
      leb→le _ _ stale,
      rw (get-update t b (expired_record r) s', et, str_eq_self t, same) refl,
    )
    | inr other ↦
        let untouched : get t b (update (expired_record r) s') ≡ get t b s' =
          rw (get-update t b (expired_record r) s', et, str_eq_self t, other) refl in
        elim f [
          | inl e ↦ inl (untouched ∙ e)
          | inr (x, a, c, d, e) ↦ inr (x, a, c, d, untouched ∙ e)
        ]
  ]

  expire_each-Faded :
      (b : String) (rs : List ApprovalRequestRecord) (n : ℕ) (s' : Storage)
      → All (Listed t s) rs
      → Faded b s'
      → Faded b (expire_each now rs n s').1
  unfolding expire_each
  expire_each-Faded b [] n s' h f = f
  expire_each-Faded b (r ∷ rs) n s' h f = elim (Bool-cases (is_stale now r)) [
    | inl stale ↦ rw stale (
        expire_each-Faded b rs (n + 1) (update (expired_record r) s') h.1
          (Faded-update b r s' h.0 stale f))
    | inr kept ↦ rw kept (expire_each-Faded b rs n s' h.1 f)
  ]

pub expire_stale_requests-Faded :
    (now : UtcDateTime) (t b : String) (s : Storage)
    → IsKeyed s
    → Faded now t s b (expire_stale_requests t now s).1
unfolding expire_stale_requests
expire_stale_requests-Faded now t b s k =
    expire_each-Faded now t s b (list_pending t s) 0 s (list_pending-Listed t s k) (inl refl)

module _ (now : UtcDateTime) (t b : String) (s : Storage) (r : ApprovalRequestRecord)
    (found : get t b s ≡ some r) (own : OwnPlace t b r) (stale : is_stale now r ≡ true) where
  update-done :
      (x : ApprovalRequestRecord) (s' : Storage)
      → Listed t s x
      → get t b s' ≡ some (expired_record r)
      → get t b (update (expired_record x) s') ≡ some (expired_record r)
  update-done x s' (held, et, waiting) h = elim (Bool-cases (str_eq x.approval_id b)) [
    | inl same ↦
        let e : some x ≡ some r =
          sym held ∙ ap (λ a. get t a s) (str_eq→eq x.approval_id b same) ∙ found in
        let one : x ≡ r = cc e in
        rw (get-update t b (expired_record x) s', et, str_eq_self t, same) (cc one)
    | inr other ↦ rw (get-update t b (expired_record x) s', et, str_eq_self t, other) h
  ]

  update_self-done :
      (s' : Storage) → get t b (update (expired_record r) s') ≡ some (expired_record r)
  update_self-done s' =
      rw (get-update t b (expired_record r) s', own.0, own.1, str_eq_self t, str_eq_self b) refl

  expire_each-done :
      (rs : List ApprovalRequestRecord) (n : ℕ) (s' : Storage)
      → All (Listed t s) rs
      → Among r rs ⊎ (get t b s' ≡ some (expired_record r))
      → get t b (expire_each now rs n s').1 ≡ some (expired_record r)
  unfolding expire_each
  expire_each-done [] n s' h (inl m) = absurd m
  expire_each-done [] n s' h (inr e) = e
  expire_each-done (x ∷ rs) n s' h (inl (inl e)) =
      let now_stale : is_stale now x ≡ true = ap (is_stale now) (sym e) ∙ stale in
      rw now_stale (
        expire_each-done rs (n + 1) (update (expired_record x) s') h.1 (
          inr (
            subst (λ y. get t b (update (expired_record y) s') ≡ some (expired_record r)) e
              (update_self-done s'))))
  expire_each-done (x ∷ rs) n s' h (inl (inr m)) = elim (Bool-cases (is_stale now x)) [
    | inl gone ↦ rw gone (expire_each-done rs (n + 1) (update (expired_record x) s') h.1 (inl m))
    | inr kept ↦ rw kept (expire_each-done rs n s' h.1 (inl m))
  ]
  expire_each-done (x ∷ rs) n s' h (inr e) = elim (Bool-cases (is_stale now x)) [
    | inl gone ↦ rw gone (
        expire_each-done rs (n + 1) (update (expired_record x) s') h.1
          (inr (update-done x s' h.0 e)))
    | inr kept ↦ rw kept (expire_each-done rs n s' h.1 (inr e))
  ]

-- What one request is after the scan.
abbrev pub after_expiry : UtcDateTime → ApprovalRequestRecord → ApprovalRequestRecord
after_expiry now r = if is_pending r.status && is_stale now r then expired_record r else r

expire_stale_requests-stale :
    (now : UtcDateTime) (t b : String) (s : Storage) (r : ApprovalRequestRecord)
    → IsKeyed s
    → get t b s ≡ some r
    → r.status ≡ pending
    → is_stale now r ≡ true
    → get t b (expire_stale_requests t now s).1 ≡ some (expired_record r)
unfolding expire_stale_requests
expire_stale_requests-stale now t b s r k found waiting stale =
    expire_each-done now t b s r found (get-OwnPlace t b s k found) stale (list_pending t s) 0 s
      (list_pending-Listed t s k) (inl (get-Among-list_pending t b s found waiting))

after_expiry-cases :
    (now : UtcDateTime) (r : ApprovalRequestRecord)
    → ((r.status ≡ pending) × (is_stale now r ≡ true)) ⊎ (after_expiry now r ≡ r)
after_expiry-cases now r = ground arith

after_expiry-stale :
    (now : UtcDateTime) (r : ApprovalRequestRecord)
    → r.status ≡ pending
    → r.expiry_time ≤ now
    → after_expiry now r ≡ expired_record r
after_expiry-stale now r waiting due = ground arith

-- In a storage whose requests stand under their own tenant and identifier, the scan expires every
-- pending request of its tenant that has reached its expiry, and leaves every other place of that
-- tenant as it was.
pub expire_stale_requests-get :
    (now : UtcDateTime) (t b : String) (s : Storage)
    → IsKeyed s
    → get t b (expire_stale_requests t now s).1 ≡ Option.map (after_expiry now) (get t b s)
expire_stale_requests-get now t b s k = elim (Option-cases (get t b s)) [
  | inl bare ↦ elim (expire_stale_requests-Faded now t b s k) [
    | inl same ↦ rw (same, bare) refl
    | inr (r, found, waiting, due, gone) ↦ cc (bare, found)
  ]
  | inr (r, found) ↦ elim (after_expiry-cases now r) [
    | inl (waiting, stale) ↦
        rw (expire_stale_requests-stale now t b s r k found waiting stale, found, waiting, stale)
          refl
    | inr unchanged ↦ elim (expire_stale_requests-Faded now t b s k) [
      | inl same ↦ rw (same, found) (cc unchanged)
      | inr (x, held, waiting, due, gone) ↦
          let one : some x ≡ some r = sym held ∙ found in
          rw (gone, found)
            (sym (ap some (after_expiry-stale now x waiting due))
              ∙ ap (λ o. Option.map (after_expiry now) o) one)
    ]
  ]
]
