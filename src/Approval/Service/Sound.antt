-- ===== src/Approval/Service/Sound.antt =====
-- The places of requests in the storage of approval/service.py: under their own tenant and identifier.
use rev_pilot_ai.Base.{ℕ, ◌+◌, ◌≡◌, refl, inl, inr, String, some, List, [], ◌∷◌, Bool-cases}
use rev_pilot_ai.Base.Time.{UtcDateTime}
use rev_pilot_ai.Base.Dict.Entries.{NestedEntries, store-Entries, find-Entries}
use rev_pilot_ai.Approval.Domain.{ApprovalRequestRecord}
use rev_pilot_ai.Approval.Repository.{Storage, get, save, update}
use rev_pilot_ai.Approval.Service.Change.{is_stale, expire_each, expired_record}

abbrev pub OwnPlace : String → String → ApprovalRequestRecord → Type 0
OwnPlace t a r = (r.tenant_id ≡ t) × (r.approval_id ≡ a)

abbrev pub IsKeyed : Storage → Type 0
IsKeyed s = NestedEntries OwnPlace s

pub get-OwnPlace :
    (t a : String) (s : Storage) {r : ApprovalRequestRecord}
    → IsKeyed s
    → get t a s ≡ some r
    → OwnPlace t a r
unfolding get
get-OwnPlace t a s k h = find-Entries OwnPlace t a s k h

pub update-IsKeyed : (r : ApprovalRequestRecord) (s : Storage) → IsKeyed s → IsKeyed (update r s)
unfolding update
update-IsKeyed r s k = store-Entries OwnPlace r.tenant_id r.approval_id r s (refl, refl) k

pub save-IsKeyed : (r : ApprovalRequestRecord) (s : Storage) → IsKeyed s → IsKeyed (save r s)
unfolding save
save-IsKeyed r s k = store-Entries OwnPlace r.tenant_id r.approval_id r s (refl, refl) k

pub expire_each-IsKeyed :
    (now : UtcDateTime) (rs : List ApprovalRequestRecord) (n : ℕ) (s : Storage)
    → IsKeyed s
    → IsKeyed (expire_each now rs n s).1
unfolding expire_each
expire_each-IsKeyed now [] n s k = k
expire_each-IsKeyed now (r ∷ rs) n s k = elim (Bool-cases (is_stale now r)) [
  | inl stale ↦ rw stale (
      expire_each-IsKeyed now rs (n + 1) (update (expired_record r) s)
        (update-IsKeyed (expired_record r) s k))
  | inr kept ↦ rw kept (expire_each-IsKeyed now rs n s k)
]
