-- ===== src/Approval/Service/Isolation.antt =====
-- One call of approval/service.py, seen at each place of the storage.
use rev_pilot_ai.Base.{
  ◌≡◌, refl, ◌≢◌, inl, inr, String, List, [], ◌∷◌, some, arith, str_eq, str_eq_ne, str_eq_self,
  str_eq→eq, Bool-cases, ◌∙◌, false, ℕ, ap, subst, All, ◌+◌,
}
use rev_pilot_ai.Base.Time.{UtcDateTime}
use rev_pilot_ai.Approval.Domain.{ApprovalRequestRecord}
use rev_pilot_ai.Approval.Digest.{Hasher}
use rev_pilot_ai.Approval.Repository.{
  Storage, get, save, update, get-update, get-save, list_pending, Storage,
}
use rev_pilot_ai.Approval.Service.Change.{
  is_stale, expired_record, expire_each, expire_stale_requests,
}
use rev_pilot_ai.Approval.Service.Requests.{
  Request, tenant_of, handle, Edit, by_expiry, Fate, kept, edited, added, IsNew,
}
use rev_pilot_ai.Approval.Service.Sound.{
  OwnPlace, IsKeyed, get-OwnPlace, update-IsKeyed, save-IsKeyed, expire_each-IsKeyed,
}
use rev_pilot_ai.Approval.Service.Expiry.{expire_stale_requests-Faded, Listed, list_pending-Listed}
use rev_pilot_ai.Approval.Service.Lifecycle.{
  Effect, nothing, edit, add, replace, scan, handle-Effect,
}

scan-IsKeyed :
    (t : String) (now : UtcDateTime) (s : Storage)
    → IsKeyed s
    → IsKeyed (expire_stale_requests t now s).1
unfolding expire_stale_requests
scan-IsKeyed t now s k = expire_each-IsKeyed now (list_pending t s) 0 s k

Effect-IsKeyed :
    {hasher : Hasher} {t : String} {s s' : Storage} → IsKeyed s → Effect hasher t s s' → IsKeyed s'
Effect-IsKeyed k nothing = k
Effect-IsKeyed {s = s} k (edit {r' = r'} a found e et ea) = update-IsKeyed r' s k
Effect-IsKeyed {s = s} k (add {r = r} et n) = save-IsKeyed r s k
Effect-IsKeyed {s = s} k (replace {r' = r'} {n = n} a found e et ea nt new) =
    save-IsKeyed n (update r' s) (update-IsKeyed r' s k)
Effect-IsKeyed {t = t} {s = s} k (scan now) = scan-IsKeyed t now s k

pub handle-IsKeyed :
    (hasher : Hasher) (q : Request) (s : Storage) → IsKeyed s → IsKeyed (handle hasher q s)
handle-IsKeyed hasher q s k = Effect-IsKeyed k (handle-Effect hasher q s)

-- A write under one tenant leaves the places of the others.
update-other :
    (u b : String) (r : ApprovalRequestRecord) (s : Storage)
    → str_eq r.tenant_id u ≡ false
    → get u b (update r s) ≡ get u b s
update-other u b r s h = rw (get-update u b r s, h) refl

save-other :
    (u b : String) (r : ApprovalRequestRecord) (s : Storage)
    → str_eq r.tenant_id u ≡ false
    → get u b (save r s) ≡ get u b s
save-other u b r s h = rw (get-save u b r s, h) refl

expire_each-other :
    (now : UtcDateTime) (t u b : String) (s : Storage) (rs : List ApprovalRequestRecord) (n : ℕ)
    (s' : Storage)
    → str_eq t u ≡ false
    → All (Listed t s) rs
    → get u b (expire_each now rs n s').1 ≡ get u b s'
unfolding expire_each
expire_each-other now t u b s [] n s' h l = refl
expire_each-other now t u b s (r ∷ rs) n s' h l = elim (Bool-cases (is_stale now r)) [
  | inl stale ↦ rw stale (
      expire_each-other now t u b s rs (n + 1) (update (expired_record r) s') h l.1
      ∙ update-other u b (expired_record r) s' (ap (λ x. str_eq x u) l.0.1 ∙ h))
  | inr fresh ↦ rw fresh (expire_each-other now t u b s rs n s' h l.1)
]

scan-other :
    (now : UtcDateTime) (t u b : String) (s : Storage)
    → IsKeyed s
    → str_eq t u ≡ false
    → get u b (expire_stale_requests t now s).1 ≡ get u b s
unfolding expire_stale_requests
scan-other now t u b s k h =
    expire_each-other now t u b s (list_pending t s) 0 s h (list_pending-Listed t s k)

Effect-other :
    {hasher : Hasher} {t : String} {s s' : Storage} (u b : String)
    → IsKeyed s
    → str_eq t u ≡ false
    → Effect hasher t s s'
    → get u b s' ≡ get u b s
Effect-other u b k h nothing = refl
Effect-other {t = t} {s = s} u b k h (edit {r' = r'} a found e et ea) =
    update-other u b r' s (ap (λ x. str_eq x u) (et ∙ (get-OwnPlace t a s k found).0) ∙ h)
Effect-other {s = s} u b k h (add {r = r} et n) = save-other u b r s (ap (λ x. str_eq x u) et ∙ h)
Effect-other {t = t} {s = s} u b k h (replace {r' = r'} {n = n} a found e et ea nt new) =
    save-other u b n (update r' s) (ap (λ x. str_eq x u) nt ∙ h)
    ∙ update-other u b r' s (ap (λ x. str_eq x u) (et ∙ (get-OwnPlace t a s k found).0) ∙ h)
Effect-other {t = t} {s = s} u b k h (scan now) = scan-other now t u b s k h

-- In a storage whose requests stand under their own tenant and identifier, a call that names one
-- tenant leaves every place of every other tenant as it was.
pub handle-other_tenant :
    (hasher : Hasher) (q : Request) (u b : String) (s : Storage)
    → IsKeyed s
    → tenant_of q ≢ u
    → get u b (handle hasher q s) ≡ get u b s
handle-other_tenant hasher q u b s k ne =
    Effect-other u b k (str_eq_ne (tenant_of q) u ne) (handle-Effect hasher q s)

module _ {hasher : Hasher} {t : String} (b : String) (s : Storage) where
  update-Fate :
      (r r' : ApprovalRequestRecord) (a : String)
      → OwnPlace t a r
      → get t a s ≡ some r
      → Edit hasher r r'
      → r'.tenant_id ≡ r.tenant_id
      → r'.approval_id ≡ r.approval_id
      → Fate hasher (get t b s) (get t b (update r' s))
  update-Fate r r' a own found e et ea = elim (Bool-cases (str_eq a b)) [
    | inl same ↦
        let old : get t b s ≡ some r = subst (λ x. get t x s ≡ some r) (str_eq→eq a b same) found in
        let new : get t b (update r' s) ≡ some r' =
          ground (arith, get-update t b r' s, et, ea, own, str_eq_self t, same) in
        rw (old, new) (edited e)
    | inr other ↦
        let new : get t b (update r' s) ≡ get t b s =
          ground (arith, get-update t b r' s, et, ea, own, str_eq_self t, other) in
        rw new kept
  ]

  save-Fate :
      (n : ApprovalRequestRecord) (s' : Storage)
      → n.tenant_id ≡ t
      → IsNew hasher n
      → Fate hasher (get t b s) (get t b s')
      → Fate hasher (get t b s) (get t b (save n s'))
  save-Fate n s' et new f = elim (Bool-cases (str_eq n.approval_id b)) [
    | inl same ↦
        let e : get t b (save n s') ≡ some n =
          ground (arith, get-save t b n s', et, str_eq_self t, same) in
        rw e (added new)
    | inr other ↦
        let e : get t b (save n s') ≡ get t b s' =
          ground (arith, get-save t b n s', et, str_eq_self t, other) in
        rw e f
  ]

Effect-Fate :
    {hasher : Hasher} {t : String} {s s' : Storage} (b : String)
    → IsKeyed s
    → Effect hasher t s s'
    → Fate hasher (get t b s) (get t b s')
Effect-Fate b k nothing = kept
Effect-Fate {t = t} {s = s} b k (edit {r} {r'} a found e et ea) =
    update-Fate b s r r' a (get-OwnPlace t a s k found) found e et ea
Effect-Fate {t = t} {s = s} b k (add {r} et n) = save-Fate b s r s et n kept
Effect-Fate {t = t} {s = s} b k (replace {r} {r'} {n} a found e et ea nt new) =
    save-Fate b s n (update r' s) nt new
      (update-Fate b s r r' a (get-OwnPlace t a s k found) found e et ea)
Effect-Fate {t = t} {s = s} b k (scan now) = elim (expire_stale_requests-Faded now t b s k) [
  | inl same ↦ rw same kept
  | inr (r, found, waiting, due, gone) ↦ rw (found, gone) (edited (by_expiry now waiting due))
]

-- In a storage whose requests stand under their own tenant and identifier, each call leaves each
-- place of the tenant that it names in one of three ways: as it was; with its request edited as one
-- grant, rejection, revocation, amendment or expiry edits a request that allows it; or with a new
-- pending request, sealed and of the tier that its risk and cost ask for.
pub handle-Fate :
    (hasher : Hasher) (q : Request) (b : String) (s : Storage)
    → IsKeyed s
    → Fate hasher (get (tenant_of q) b s) (get (tenant_of q) b (handle hasher q s))
handle-Fate hasher q b s k = Effect-Fate b k (handle-Effect hasher q s)
