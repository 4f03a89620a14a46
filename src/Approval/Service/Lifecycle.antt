-- ===== src/Approval/Service/Lifecycle.antt =====
-- The operations of approval/service.py against the abstract step of `Requests`.
use rev_pilot_ai.Base.{
  ◌≡◌, refl, ◌⊎◌, inl, inr, String, some, arith, str_eq→eq, Option-cases, ◌≤◌, ◌<◌, false,
}
use rev_pilot_ai.Base.Time.{UtcDateTime}
use rev_pilot_ai.Approval.Domain.{pending, ApprovalRequestRecord}
use rev_pilot_ai.Approval.Digest.{Hasher}
use rev_pilot_ai.Approval.Repository.{Storage, get, save, update}
use rev_pilot_ai.Approval.Service.Create.{CreateRequest, created_record, create_request}
use rev_pilot_ai.Approval.Service.Grant.{Grant, grant_approval, granted, current_digest}
use rev_pilot_ai.Approval.Service.Change.{
  rejected_record, is_running, revoked_record, is_unamendable, Amendment, reject_request,
  revoke_approval, amend_request, amended_record, superseded_record, expire_stale_requests,
  expired_record,
}
use rev_pilot_ai.Approval.Service.Requests.{
  Request, create, grant, reject, revoke, amend, expire, tenant_of, handle, IsNew, Edit, by_grant,
  by_expiry, by_reject, by_revoke, by_amend,
}

-- What a call leaves of the storage: the same, one request edited in its place, one added at a free
-- place, both, or the result of the scan for stale requests.
pub data Effect (hasher : Hasher) (t : String) (s : Storage) : Storage → Type 0 where
  nothing : Effect hasher t s s
  edit :
      {r r' : ApprovalRequestRecord} (a : String)
      → get t a s ≡ some r
      → Edit hasher r r'
      → r'.tenant_id ≡ r.tenant_id
      → r'.approval_id ≡ r.approval_id
      → Effect hasher t s (update r' s)
  add :
      {r : ApprovalRequestRecord} → r.tenant_id ≡ t → IsNew hasher r → Effect hasher t s (save r s)
  replace :
      {r r' n : ApprovalRequestRecord} (a : String)
      → get t a s ≡ some r
      → Edit hasher r r'
      → r'.tenant_id ≡ r.tenant_id
      → r'.approval_id ≡ r.approval_id
      → n.tenant_id ≡ t
      → IsNew hasher n
      → Effect hasher t s (save n (update r' s))
  scan : (now : UtcDateTime) → Effect hasher t s (expire_stale_requests t now s).1

Effect-same :
    (hasher : Hasher) (t : String) (s : Storage) {s' : Storage} → s' ≡ s → Effect hasher t s s'
Effect-same hasher t s e = rw e nothing

created_record-IsNew :
    (hasher : Hasher) (q : CreateRequest) (new_id : String) (now : UtcDateTime)
    → IsNew hasher (created_record hasher q new_id now)
unfolding created_record
created_record-IsNew hasher q new_id now = ground arith

amended_record-IsNew :
    (hasher : Hasher) (m : Amendment) (r : ApprovalRequestRecord) (new_id : String)
    (now : UtcDateTime)
    → IsNew hasher (amended_record hasher m r new_id now)
unfolding amended_record
amended_record-IsNew hasher m r new_id now = ground arith

create-Effect :
    (hasher : Hasher) (q : CreateRequest) (new_id : String) (now : UtcDateTime) (s : Storage)
    → ((create_request hasher q new_id now s).1 ≡ s)
      ⊎ ((create_request hasher q new_id now s).1 ≡ save (created_record hasher q new_id now) s)
unfolding create_request
create-Effect hasher q new_id now s = ground arith

grant-writes :
    (hasher : Hasher) (g : Grant) (now : UtcDateTime) (s : Storage) (r : ApprovalRequestRecord)
    → get g.tenant_id g.approval_id s ≡ some r
    → let s' = (grant_approval hasher g now s).1 in
      (s' ≡ s)
      ⊎ ((r.status ≡ pending) × (r.expiry_time ≤ now) × (s' ≡ update (expired_record r) s))
      ⊎ ((r.status ≡ pending)
          × (now < r.expiry_time)
          × (r.payload_digest ≡ current_digest hasher r)
          × (s' ≡ update (granted r g.approver_principal_id now) s))
unfolding grant_approval
grant-writes hasher g now s r found =
    ground (arith, str_eq→eq (current_digest hasher r) r.payload_digest)

grant-Effect :
    (hasher : Hasher) (g : Grant) (now : UtcDateTime) (s : Storage)
    → Effect hasher g.tenant_id s (grant_approval hasher g now s).1
unfolding grant_approval
grant-Effect hasher g now s = elim (Option-cases (get g.tenant_id g.approval_id s)) [
  | inl missing ↦ Effect-same hasher g.tenant_id s (ground (arith, missing))
  | inr (r, found) ↦ elim (grant-writes hasher g now s r found) [
    | inl same ↦ Effect-same hasher g.tenant_id s same
    | inr (inl (waiting, due, e)) ↦
        rw e (edit g.approval_id found (by_expiry now waiting due) refl refl)
    | inr (inr (waiting, fresh, sealed, e)) ↦ rw e (
        edit g.approval_id found (by_grant g.approver_principal_id now waiting fresh sealed) refl
          refl)
  ]
]

module _ (hasher : Hasher) (t a : String) (s : Storage) where
  reject-writes :
      (approver reason : String) (r : ApprovalRequestRecord)
      → get t a s ≡ some r
      → let s' = (reject_request t a approver reason s).1 in
        (s' ≡ s) ⊎ ((r.status ≡ pending) × (s' ≡ update (rejected_record r approver reason) s))
  unfolding reject_request
  reject-writes approver reason r found = ground arith

  reject-Effect :
      (approver reason : String) → Effect hasher t s (reject_request t a approver reason s).1
  unfolding reject_request
  reject-Effect approver reason = elim (Option-cases (get t a s)) [
    | inl missing ↦ Effect-same hasher t s (ground (arith, missing))
    | inr (r, found) ↦ elim (reject-writes approver reason r found) [
      | inl same ↦ Effect-same hasher t s same
      | inr (waiting, e) ↦ rw e (edit a found (by_reject approver reason waiting) refl refl)
    ]
  ]

  revoke-writes :
      (revoker reason : String) (r : ApprovalRequestRecord)
      → get t a s ≡ some r
      → let s' = (revoke_approval t a revoker reason s).1 in
        (s' ≡ s) ⊎ ((is_running r.status ≡ false) × (s' ≡ update (revoked_record r reason) s))
  unfolding revoke_approval
  revoke-writes revoker reason r found = ground arith

  revoke-Effect :
      (revoker reason : String) → Effect hasher t s (revoke_approval t a revoker reason s).1
  unfolding revoke_approval
  revoke-Effect revoker reason = elim (Option-cases (get t a s)) [
    | inl missing ↦ Effect-same hasher t s (ground (arith, missing))
    | inr (r, found) ↦ elim (revoke-writes revoker reason r found) [
      | inl same ↦ Effect-same hasher t s same
      | inr (idle, e) ↦ rw e (edit a found (by_revoke reason idle) refl refl)
    ]
  ]

amend-writes :
    (hasher : Hasher) (m : Amendment) (new_id : String) (now : UtcDateTime) (s : Storage)
    (r : ApprovalRequestRecord)
    → get m.tenant_id m.approval_id s ≡ some r
    → let s' = (amend_request hasher m new_id now s).1 in
      (s' ≡ s)
      ⊎ ((is_unamendable r.status ≡ false)
          × (s'
              ≡ save
                  (amended_record hasher m r new_id now)
                  (update (superseded_record r new_id) s)))
unfolding amend_request
amend-writes hasher m new_id now s r found = ground arith

amended_record-tenant :
    (hasher : Hasher) (m : Amendment) (r : ApprovalRequestRecord) (new_id : String)
    (now : UtcDateTime)
    → (amended_record hasher m r new_id now).tenant_id ≡ m.tenant_id
unfolding amended_record
amended_record-tenant hasher m r new_id now = refl

created_record-tenant :
    (hasher : Hasher) (q : CreateRequest) (new_id : String) (now : UtcDateTime)
    → (created_record hasher q new_id now).tenant_id ≡ q.tenant_id
unfolding created_record
created_record-tenant hasher q new_id now = refl

amend-Effect :
    (hasher : Hasher) (m : Amendment) (new_id : String) (now : UtcDateTime) (s : Storage)
    → Effect hasher m.tenant_id s (amend_request hasher m new_id now s).1
unfolding amend_request
amend-Effect hasher m new_id now s = elim (Option-cases (get m.tenant_id m.approval_id s)) [
  | inl missing ↦ Effect-same hasher m.tenant_id s (ground (arith, missing))
  | inr (r, found) ↦ elim (amend-writes hasher m new_id now s r found) [
    | inl same ↦ Effect-same hasher m.tenant_id s same
    | inr (open_still, e) ↦ rw e (
        replace m.approval_id found (by_amend new_id open_still) refl refl
          (amended_record-tenant hasher m r new_id now)
          (amended_record-IsNew hasher m r new_id now))
  ]
]

-- Each call has one of the effects, on the tenant that it names.
pub handle-Effect :
    (hasher : Hasher) (q : Request) (s : Storage)
    → Effect hasher (tenant_of q) s (handle hasher q s)
unfolding handle
handle-Effect hasher (create q new_id now) s = elim (create-Effect hasher q new_id now s) [
  | inl same ↦ Effect-same hasher q.tenant_id s same
  | inr e ↦
      rw e
        (add (created_record-tenant hasher q new_id now) (created_record-IsNew hasher q new_id now))
]
handle-Effect hasher (grant g now) s = grant-Effect hasher g now s
handle-Effect hasher (reject t a approver reason) s = reject-Effect hasher t a s approver reason
handle-Effect hasher (revoke t a revoker reason) s = revoke-Effect hasher t a s revoker reason
handle-Effect hasher (amend m new_id now) s = amend-Effect hasher m new_id now s
handle-Effect hasher (expire t now) s = scan now
