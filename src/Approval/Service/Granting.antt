-- ===== src/Approval/Service/Granting.antt =====
-- What `grant_approval` of approval/service.py requires and does.
use rev_pilot_ai.Base.{
  ◌≤◌, ◌<◌, ◌≡◌, ap, ◌↔◌, ◌⊎◌, inl, inr, true, false, none, some, ok, err, arith, str_eq,
  str_eq_self, str_eq→eq, Option-cases,
}
use rev_pilot_ai.Base.Time.{UtcDateTime}
use rev_pilot_ai.Approval.Domain.{
  pending, approved, ApprovalRequestRecord, ErrorCode, already_used, approval_expired,
}
use rev_pilot_ai.Approval.Digest.{Hasher}
use rev_pilot_ai.Approval.Repository.{Storage, get, update, get-update}
use rev_pilot_ai.Approval.Service.Change.{expired_record}
use rev_pilot_ai.Approval.Service.Grant.{
  Grant, grant_approval, granted, current_digest, is_requester,
}

-- All that a grant needs of the stored request.
pub record IsGrantable (hasher : Hasher) (g : Grant) (now : UtcDateTime) (r : ApprovalRequestRecord)
    : Type 0 where
  pub human : g.is_human ≡ true
  pub separate : is_requester r.requester_principal_id g.approver_principal_id ≡ false
  pub waiting : r.status ≡ pending
  pub fresh : now < r.expiry_time
  pub authorised : r.required_approval_tier ≤ g.approver_tier
  pub expected : current_digest hasher r ≡ g.expected_digest
  pub sealed : current_digest hasher r ≡ r.payload_digest

grant_sound :
    (hasher : Hasher) (g : Grant) (now : UtcDateTime) (s : Storage) (r : ApprovalRequestRecord)
    {r' : ApprovalRequestRecord} {s' : Storage}
    → get g.tenant_id g.approval_id s ≡ some r
    → grant_approval hasher g now s ≡ (ok r', s')
    → IsGrantable hasher g now r × (r' ≡ granted r g.approver_principal_id now) × (s' ≡ update r' s)
unfolding grant_approval
grant_sound hasher g now s r e h = ground (
  arith,
  str_eq→eq (current_digest hasher r) g.expected_digest,
  str_eq→eq (current_digest hasher r) r.payload_digest,
)

grant_complete :
    (hasher : Hasher) (g : Grant) (now : UtcDateTime) (s : Storage) (r : ApprovalRequestRecord)
    → get g.tenant_id g.approval_id s ≡ some r
    → IsGrantable hasher g now r
    → let r' = granted r g.approver_principal_id now in
      grant_approval hasher g now s ≡ (ok r', update r' s)
unfolding grant_approval
grant_complete hasher g now s r e v = ground (
  arith,
  v.waiting,
  v.human,
  str_eq_self (current_digest hasher r),
  ap (str_eq (current_digest hasher r)) v.expected,
  ap (str_eq (current_digest hasher r)) v.sealed,
)

grant_missing :
    (hasher : Hasher) (g : Grant) (now : UtcDateTime) (s : Storage) {r' : ApprovalRequestRecord}
    {s' : Storage}
    → get g.tenant_id g.approval_id s ≡ none
    → ¬ (grant_approval hasher g now s ≡ (ok r', s'))
unfolding grant_approval
grant_missing hasher g now s missing h = ground arith

grant_approved :
    (hasher : Hasher) (g : Grant) (now : UtcDateTime) (s : Storage) (r : ApprovalRequestRecord)
    → get g.tenant_id g.approval_id s ≡ some r
    → r.status ≡ approved
    → g.is_human ≡ true
    → is_requester r.requester_principal_id g.approver_principal_id ≡ false
    → grant_approval hasher g now s ≡ (err already_used, s)
unfolding grant_approval
grant_approved hasher g now s r found done human separate = ground (arith, done, human, separate)

grant_error_at :
    (hasher : Hasher) (g : Grant) (now : UtcDateTime) (s : Storage) (r : ApprovalRequestRecord)
    {e : ErrorCode} {s' : Storage}
    → get g.tenant_id g.approval_id s ≡ some r
    → grant_approval hasher g now s ≡ (err e, s')
    → (s' ≡ s)
      ⊎ ((r.status ≡ pending)
          × (r.expiry_time ≤ now)
          × (e ≡ approval_expired)
          × (s' ≡ update (expired_record r) s))
unfolding grant_approval
grant_error_at hasher g now s r found h = ground arith

-- A grant that raises leaves the storage as it was; but where the request is pending and past its
-- expiry, it may instead be stored as expired, and then the error is that of an expired approval.
pub grant_error :
    (hasher : Hasher) (g : Grant) (now : UtcDateTime) (s : Storage) {e : ErrorCode} {s' : Storage}
    → grant_approval hasher g now s ≡ (err e, s')
    → (s' ≡ s)
      ⊎ ((r : ApprovalRequestRecord) × (get g.tenant_id g.approval_id s ≡ some r)
          × (r.status ≡ pending)
          × (r.expiry_time ≤ now)
          × (e ≡ approval_expired)
          × (s' ≡ update (expired_record r) s))
unfolding grant_approval
grant_error hasher g now s h = elim (Option-cases (get g.tenant_id g.approval_id s)) [
  | inl missing ↦ inl (ground arith)
  | inr (r, found) ↦ elim (grant_error_at hasher g now s r found h) [
    | inl same ↦ inl same
    | inr (a, b, c, d) ↦ inr (r, found, a, b, c, d)
  ]
]

-- A call of `grant_approval` returns a record and a storage exactly when some stored request meets
-- every requirement (a human, not the requester, pending, before its expiry, of sufficient tier,
-- with the content's digest equal to the expected and to the stored one), the returned record is that
-- request as approved by the caller at this time, and the storage has it in its place.
pub grant_iff :
    (hasher : Hasher) (g : Grant) (now : UtcDateTime) (s s' : Storage) (r' : ApprovalRequestRecord)
    → (grant_approval hasher g now s ≡ (ok r', s')) ↔ (
        (r : ApprovalRequestRecord) × (get g.tenant_id g.approval_id s ≡ some r)
        × IsGrantable hasher g now r
        × (r' ≡ granted r g.approver_principal_id now)
        × (s' ≡ update r' s))
grant_iff hasher g now s s' r' = (to, back)
  where
    to :
        grant_approval hasher g now s ≡ (ok r', s')
        → (r : ApprovalRequestRecord) × (get g.tenant_id g.approval_id s ≡ some r)
          × IsGrantable hasher g now r
          × (r' ≡ granted r g.approver_principal_id now)
          × (s' ≡ update r' s)
    to h = elim (Option-cases (get g.tenant_id g.approval_id s)) [
      | inl missing ↦ absurd (grant_missing hasher g now s missing h)
      | inr (r, found) ↦ let (a, b, c) = grant_sound hasher g now s r found h in (r, found, a, b, c)
    ]

    back :
        (r : ApprovalRequestRecord) × (get g.tenant_id g.approval_id s ≡ some r)
          × IsGrantable hasher g now r
          × (r' ≡ granted r g.approver_principal_id now)
          × (s' ≡ update r' s)
        → grant_approval hasher g now s ≡ (ok r', s')
    back (r, found, v, e, f) = cc (grant_complete hasher g now s r found v)

-- Once a request that is stored under its own tenant and identifier has been granted, any human
-- other than its requester who asks for the same request is told that it is already used, whatever
-- the time, tier and digest, and the storage stays as it is.
pub replay_refused :
    (hasher : Hasher) (g g' : Grant) (now later : UtcDateTime) (s s' : Storage)
    (r' : ApprovalRequestRecord)
    → grant_approval hasher g now s ≡ (ok r', s')
    → r'.tenant_id ≡ g.tenant_id
    → r'.approval_id ≡ g.approval_id
    → g'.tenant_id ≡ g.tenant_id
    → g'.approval_id ≡ g.approval_id
    → g'.is_human ≡ true
    → is_requester r'.requester_principal_id g'.approver_principal_id ≡ false
    → grant_approval hasher g' later s' ≡ (err already_used, s')
replay_refused hasher g g' now later s s' r' h et ea et' ea' human separate =
    let (r, found, v, e, f) = (grant_iff hasher g now s s' r').0 h in
    let stored : get g'.tenant_id g'.approval_id s' ≡ some r' = ground (
      arith,
      f,
      get-update g'.tenant_id g'.approval_id r' s,
      str_eq_self r'.tenant_id,
      str_eq_self r'.approval_id,
    ) in
    let done : r'.status ≡ approved = cc e in
    grant_approved hasher g' later s' r' stored done human separate
