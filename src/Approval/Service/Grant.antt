-- ===== src/Approval/Service/Grant.antt =====
-- approval/service.py: `grant_approval`.
use rev_pilot_ai.Base.{
  ℕ, String, Bool, false, not, ◌&&◌, ◌||◌, Option, none, some, pure, raise, gets, or_raise,
  raise_if, modify, ◌>>=◌, ◌>>◌, ltb, leb, str_eq, if◌then◌else◌,
}
use rev_pilot_ai.Base.Time.{UtcDateTime}
use rev_pilot_ai.Approval.Domain.{
  ApprovalStatus, pending, approved, expired, revoked, superseded, ApprovalRequestRecord,
  tenant_mismatch, agent_self_approval, separation_of_duties_violation, already_used,
  approval_expired, approval_revoked, invalid_approval_state, insufficient_approval_tier,
  approval_digest_mismatch,
}
use rev_pilot_ai.Approval.Digest.{Hasher, compute_payload_digest}
use rev_pilot_ai.Approval.Repository.{get, update}
use rev_pilot_ai.Approval.Service.Create.{Call}

-- `record.requester_principal_id and approver == record.requester_principal_id`
abbrev pub is_requester : Option String → String → Bool
is_requester none approver = false
is_requester (some r) approver = not (str_eq r "") && str_eq approver r

-- The tests on `record.status` of `grant_approval`, in their order.
abbrev check_grantable : ApprovalStatus → Call (Unit {0})
check_grantable approved = raise already_used
check_grantable expired = raise approval_expired
check_grantable revoked = raise approval_revoked
check_grantable superseded = raise invalid_approval_state
check_grantable pending = pure tt
check_grantable _ = raise invalid_approval_state

-- The expiration check, which writes before it raises.
abbrev check_fresh : ApprovalRequestRecord → UtcDateTime → Call (Unit {0})
check_fresh r now =
    if leb r.expiry_time now
    then (modify (update (record r { status = expired })) >> raise approval_expired)
    else pure tt

-- `ApprovalDigestHasher.compute_payload_digest` on what the record holds.
abbrev pub current_digest : Hasher → ApprovalRequestRecord → String
current_digest hasher r =
    compute_payload_digest hasher r.action_type r.target_entity_refs r.action_payload
      r.estimated_cost_usd

abbrev pub granted : ApprovalRequestRecord → String → UtcDateTime → ApprovalRequestRecord
granted r approver now = record r {
  approver_principal_id = some approver;
  approval_timestamp = some now;
  status = approved;
}

-- What a caller gives `grant_approval`.
pub record Grant : Type 0 where
  pub tenant_id : String
  pub approval_id : String
  pub approver_principal_id : String
  pub approver_tier : ℕ
  pub expected_digest : String
  pub is_human : Bool

unfoldable pub grant_approval : Hasher → Grant → UtcDateTime → Call ApprovalRequestRecord
grant_approval hasher g now = do
  r ← or_raise (← gets (get g.tenant_id g.approval_id)) tenant_mismatch
  raise_if (not g.is_human) agent_self_approval
  raise_if (is_requester r.requester_principal_id g.approver_principal_id)
      separation_of_duties_violation
  check_grantable r.status
  check_fresh r now
  raise_if (ltb g.approver_tier r.required_approval_tier) insufficient_approval_tier
  raise_if
      (not (str_eq (current_digest hasher r) g.expected_digest)
        || not (str_eq (current_digest hasher r) r.payload_digest))
      approval_digest_mismatch
  modify (update (granted r g.approver_principal_id now))
  pure (granted r g.approver_principal_id now)
