-- ===== src/Approval/Service/Requests.antt =====
-- The calls that clients make of approval/service.py, and an abstract step on one stored request.
use rev_pilot_ai.Base.{◌≤◌, ◌<◌, ◌≡◌, false, String, Option, none, some, List, [], ◌∷◌}
use rev_pilot_ai.Base.Time.{UtcDateTime}
use rev_pilot_ai.Approval.Domain.{pending, ApprovalRequestRecord}
use rev_pilot_ai.Approval.Digest.{Hasher}
use rev_pilot_ai.Approval.Repository.{Storage}
use rev_pilot_ai.Approval.Service.Create.{CreateRequest, compute_required_tier, create_request}
use rev_pilot_ai.Approval.Service.Grant.{Grant, grant_approval, granted, current_digest}
use rev_pilot_ai.Approval.Service.Change.{
  Amendment, reject_request, rejected_record, is_running, revoke_approval, revoked_record,
  is_unamendable, amend_request, superseded_record, expire_stale_requests, expired_record,
}

-- A call with its arguments; then a fresh identifier and the clock's reading, where it takes them.
pub data Request : Type 0 where
  create : CreateRequest → String → UtcDateTime → Request
  grant : Grant → UtcDateTime → Request
  reject : String → String → String → String → Request
  revoke : String → String → String → String → Request
  amend : Amendment → String → UtcDateTime → Request
  expire : String → UtcDateTime → Request

-- The tenant that a call names.
abbrev pub tenant_of : Request → String
tenant_of (create q _ _) = q.tenant_id
tenant_of (grant g _) = g.tenant_id
tenant_of (reject t _ _ _) = t
tenant_of (revoke t _ _ _) = t
tenant_of (amend m _ _) = m.tenant_id
tenant_of (expire t _) = t

-- The storage after a call, whether it returns or raises.
unfoldable pub handle : Hasher → Request → Storage → Storage
handle hasher (create q new_id now) s = (create_request hasher q new_id now s).1
handle hasher (grant g now) s = (grant_approval hasher g now s).1
handle hasher (reject t a approver reason) s = (reject_request t a approver reason s).1
handle hasher (revoke t a revoker reason) s = (revoke_approval t a revoker reason s).1
handle hasher (amend m new_id now) s = (amend_request hasher m new_id now s).1
handle hasher (expire t now) s = (expire_stale_requests t now s).1

unfoldable pub handle_all : Hasher → List Request → Storage → Storage
handle_all hasher [] s = s
handle_all hasher (q ∷ qs) s = handle_all hasher qs (handle hasher q s)

-- A new request: it waits for a human, nobody has approved it, its digest is that of its content,
-- and its tier that of its risk and cost.
pub record IsNew (hasher : Hasher) (r : ApprovalRequestRecord) : Type 0 where
  pub waiting : r.status ≡ pending
  pub no_approver : r.approver_principal_id ≡ none
  pub no_requester : r.requester_principal_id ≡ none
  pub sealed : r.payload_digest ≡ current_digest hasher r
  pub tiered : r.required_approval_tier ≡ compute_required_tier r.risk_tier r.estimated_cost_usd
  pub reserved : r.reserved_budget_usd ≡ r.estimated_cost_usd

-- What one call may make of a stored request.
pub data Edit (hasher : Hasher) (r : ApprovalRequestRecord) : ApprovalRequestRecord → Type 0 where
  by_grant :
      (approver : String) (now : UtcDateTime)
      → r.status ≡ pending
      → now < r.expiry_time
      → r.payload_digest ≡ current_digest hasher r
      → Edit hasher r (granted r approver now)
  by_expiry :
      (now : UtcDateTime)
      → r.status ≡ pending
      → r.expiry_time ≤ now
      → Edit hasher r (expired_record r)
  by_reject :
      (approver reason : String)
      → r.status ≡ pending
      → Edit hasher r (rejected_record r approver reason)
  by_revoke :
      (reason : String) → is_running r.status ≡ false → Edit hasher r (revoked_record r reason)
  by_amend :
      (new_id : String)
      → is_unamendable r.status ≡ false
      → Edit hasher r (superseded_record r new_id)

-- The fate of one place of the storage in one call.
pub data Fate (hasher : Hasher)
    : Option ApprovalRequestRecord → Option ApprovalRequestRecord → Type 0 where
  kept : {o : Option ApprovalRequestRecord} → Fate hasher o o
  edited : {r r' : ApprovalRequestRecord} → Edit hasher r r' → Fate hasher (some r) (some r')
  added :
      {o : Option ApprovalRequestRecord} {r : ApprovalRequestRecord}
      → IsNew hasher r
      → Fate hasher o (some r)
