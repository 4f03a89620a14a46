-- ===== src/Approval/Service/Create.antt =====
-- approval/service.py: `create_request` and `_compute_required_tier`. The clock's reading and a fresh
-- identifier are arguments; with the in-memory repository no operation waits between its reads and
-- its writes, so each is one step.
use rev_pilot_ai.Base.{
  ℕ, ◌+◌, String, Bool, true, false, ◌||◌, Option, none, some, List, Action, pure, raise_if, modify,
  ◌>>◌, ltb, is_blank, if◌then◌else◌,
}
use rev_pilot_ai.Base.Money.{Usd, dollars}
use rev_pilot_ai.Base.Time.{UtcDateTime, hours}
use rev_pilot_ai.Approval.Domain.{
  pending, RiskTier, medium, high, critical, ApprovalRequestRecord, ErrorCode, tenant_mismatch,
  invalid_request,
}
use rev_pilot_ai.Approval.Digest.{
  Hasher, PolicyRules, compute_payload_digest, compute_policy_digest,
}
use rev_pilot_ai.Approval.Repository.{Storage, save}

abbrev pub Call : Type 0 → Type 0
Call A = Action Storage ErrorCode A

-- `risk_tier in ("HIGH", "CRITICAL")`
abbrev is_severe : RiskTier → Bool
is_severe high = true
is_severe critical = true
is_severe _ = false

abbrev is_medium : RiskTier → Bool
is_medium medium = true
is_medium _ = false

-- `_compute_required_tier`
unfoldable pub compute_required_tier : RiskTier → Usd → ℕ
compute_required_tier risk_tier cost_usd =
    if is_severe risk_tier || ltb (dollars 1000) cost_usd
    then 3
    else if is_medium risk_tier || ltb (dollars 250) cost_usd
    then 2
    else 1

-- `x if x is not None else y`, and `x or y` of objects that are never false
abbrev pub or_else : {A : Type 0} → Option A → A → A
or_else none y = y
or_else (some x) y = x

-- What a caller gives `create_request`. A cost below zero, which the record's validation refuses, is
-- left out.
pub record CreateRequest : Type 0 where
  pub tenant_id : String
  pub decision_id : String
  pub action_type : String
  pub target_customer_id : String
  pub target_entity_refs : List String
  pub action_payload : String
  pub estimated_cost_usd : Usd
  pub risk_tier : RiskTier
  pub decision_digest : String
  pub policy_rules : PolicyRules
  pub ttl_hours : ℕ
  pub investigation_id : Option String
  pub correlation_id : Option String
  pub causation_id : Option String

-- The record that `create_request` builds.
unfoldable pub created_record :
    Hasher → CreateRequest → String → UtcDateTime → ApprovalRequestRecord
created_record hasher q approval_id now = record {
  approval_id = approval_id;
  tenant_id = q.tenant_id;
  decision_id = q.decision_id;
  investigation_id = q.investigation_id;
  action_type = q.action_type;
  action_version = "1.0.0";
  target_customer_id = q.target_customer_id;
  target_entity_refs = q.target_entity_refs;
  action_payload = q.action_payload;
  payload_digest =
      compute_payload_digest hasher q.action_type q.target_entity_refs q.action_payload
        q.estimated_cost_usd;
  policy_digest = compute_policy_digest hasher q.policy_rules;
  estimated_cost_usd = q.estimated_cost_usd;
  reserved_budget_usd = q.estimated_cost_usd;
  risk_tier = q.risk_tier;
  required_approval_tier = compute_required_tier q.risk_tier q.estimated_cost_usd;
  requester_principal_id = none;
  approver_principal_id = none;
  approval_timestamp = none;
  rejection_reason = none;
  revocation_reason = none;
  expiry_time = now + hours q.ttl_hours;
  status = pending;
  decision_digest = q.decision_digest;
  correlation_id = or_else q.correlation_id approval_id;
  causation_id = or_else q.causation_id q.decision_id;
  created_at = now;
  superseded_by = none;
}

unfoldable pub create_request :
    Hasher → CreateRequest → String → UtcDateTime → Call ApprovalRequestRecord
unfolding is_blank created_record
create_request hasher q approval_id now = do
  raise_if (is_blank q.tenant_id) tenant_mismatch
  raise_if (is_blank q.target_customer_id) invalid_request
  modify (save (created_record hasher q approval_id now))
  pure (created_record hasher q approval_id now)
