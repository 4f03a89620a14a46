-- ===== src/Approval/Service/Change.antt =====
-- approval/service.py: `reject_request`, `revoke_approval`, `amend_request` and
-- `expire_stale_requests`.
use rev_pilot_ai.Base.{
  ℕ, ◌+◌, String, Bool, true, false, not, Option, none, some, List, [], ◌∷◌, pure, gets, or_raise,
  raise_if, modify, ◌>>=◌, ◌>>◌, leb, if◌then◌else◌,
}
use rev_pilot_ai.Base.Money.{Usd}
use rev_pilot_ai.Base.Time.{UtcDateTime, hours}
use rev_pilot_ai.Approval.Domain.{
  ApprovalStatus, pending, rejected, expired, revoked, superseded, executing, completed,
  ApprovalRequestRecord, tenant_mismatch, invalid_approval_state, is_pending,
}
use rev_pilot_ai.Approval.Digest.{Hasher, compute_payload_digest}
use rev_pilot_ai.Approval.Repository.{Storage, get, save, update, list_pending}
use rev_pilot_ai.Approval.Service.Create.{Call, compute_required_tier, or_else}

abbrev pub rejected_record : ApprovalRequestRecord → String → String → ApprovalRequestRecord
rejected_record r approver reason = record r {
  approver_principal_id = some approver;
  rejection_reason = some reason;
  status = rejected;
}

unfoldable pub reject_request : String → String → String → String → Call ApprovalRequestRecord
reject_request tenant_id approval_id approver reason = do
  r ← or_raise (← gets (get tenant_id approval_id)) tenant_mismatch
  raise_if (not (is_pending r.status)) invalid_approval_state
  modify (update (rejected_record r approver reason))
  pure (rejected_record r approver reason)

-- `record.status in (EXECUTING, COMPLETED)`
abbrev pub is_running : ApprovalStatus → Bool
is_running executing = true
is_running completed = true
is_running _ = false

abbrev pub revoked_record : ApprovalRequestRecord → String → ApprovalRequestRecord
revoked_record r reason = record r { revocation_reason = some reason; status = revoked }

-- The revoker's identity is a parameter of the method that its body does not use.
unfoldable pub revoke_approval : String → String → String → String → Call ApprovalRequestRecord
revoke_approval tenant_id approval_id revoker reason = do
  r ← or_raise (← gets (get tenant_id approval_id)) tenant_mismatch
  raise_if (is_running r.status) invalid_approval_state
  modify (update (revoked_record r reason))
  pure (revoked_record r reason)

-- `original.status in (EXECUTING, COMPLETED, SUPERSEDED)`
abbrev pub is_unamendable : ApprovalStatus → Bool
is_unamendable executing = true
is_unamendable completed = true
is_unamendable superseded = true
is_unamendable _ = false

-- What a caller gives `amend_request`. A new cost below zero, which the validation of the new record
-- refuses, is left out.
pub record Amendment : Type 0 where
  pub tenant_id : String
  pub approval_id : String
  pub modifier_principal_id : String
  pub new_payload : String
  pub new_cost_usd : Option Usd
  pub new_target_entities : Option (List String)

abbrev pub superseded_record : ApprovalRequestRecord → String → ApprovalRequestRecord
superseded_record r new_id = record r { status = superseded; superseded_by = some new_id }

-- `new_record` of `amend_request`
unfoldable pub amended_record :
    Hasher → Amendment → ApprovalRequestRecord → String → UtcDateTime → ApprovalRequestRecord
amended_record hasher m original new_id now =
    let cost = or_else m.new_cost_usd original.estimated_cost_usd in
    let targets = or_else m.new_target_entities original.target_entity_refs in
    record {
      approval_id = new_id;
      tenant_id = m.tenant_id;
      decision_id = original.decision_id;
      investigation_id = original.investigation_id;
      action_type = original.action_type;
      action_version = original.action_version;
      target_customer_id = original.target_customer_id;
      target_entity_refs = targets;
      action_payload = m.new_payload;
      payload_digest =
          compute_payload_digest hasher original.action_type targets m.new_payload cost;
      policy_digest = original.policy_digest;
      estimated_cost_usd = cost;
      reserved_budget_usd = cost;
      risk_tier = original.risk_tier;
      required_approval_tier = compute_required_tier original.risk_tier cost;
      requester_principal_id = none;
      approver_principal_id = none;
      approval_timestamp = none;
      rejection_reason = none;
      revocation_reason = none;
      expiry_time = now + hours 24;
      status = pending;
      decision_digest = original.decision_digest;
      correlation_id = original.correlation_id;
      causation_id = original.approval_id;
      created_at = now;
      superseded_by = none;
    }

unfoldable pub amend_request :
    Hasher → Amendment → String → UtcDateTime → Call (ApprovalRequestRecord × ApprovalRequestRecord)
amend_request hasher m new_id now = do
  original ← or_raise (← gets (get m.tenant_id m.approval_id)) tenant_mismatch
  raise_if (is_unamendable original.status) invalid_approval_state
  modify (update (superseded_record original new_id))
  modify (save (amended_record hasher m original new_id now))
  pure (superseded_record original new_id, amended_record hasher m original new_id now)

-- `current_time >= rec.expiry_time`
abbrev pub is_stale : UtcDateTime → ApprovalRequestRecord → Bool
is_stale now r = leb r.expiry_time now

abbrev pub expired_record : ApprovalRequestRecord → ApprovalRequestRecord
expired_record r = record r { status = expired }

-- The loop of `expire_stale_requests`, on the count so far.
unfoldable pub expire_each : UtcDateTime → List ApprovalRequestRecord → ℕ → Storage → ℕ × Storage
expire_each now [] count s = (count, s)
expire_each now (r ∷ rs) count s =
    let kept = expire_each now rs count s in
    let gone = expire_each now rs (count + 1) (update (expired_record r) s) in
    if is_stale now r then gone else kept

unfoldable pub expire_stale_requests : String → UtcDateTime → Storage → ℕ × Storage
unfolding expire_each
expire_stale_requests tenant_id now s = expire_each now (list_pending tenant_id s) 0 s
