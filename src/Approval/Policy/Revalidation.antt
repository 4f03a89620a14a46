-- ===== src/Approval/Policy/Revalidation.antt =====
-- approval/policy/revalidation.py: the checks that run again at each checkpoint.
use rev_pilot_ai.Base.{
  ◌<◌, ◌≡◌, ◌↔◌, String, Bool, false, not, Option, none, some, Result, ok, err, str_eq, leb,
  str_eq→eq, eq→str_eq, refl, arith, if◌then◌else◌,
}
use rev_pilot_ai.Base.Int.{ℤ, pos, ltb_ℤ, ◌≤ℤ◌}
use rev_pilot_ai.Base.Time.{UtcDateTime}
use rev_pilot_ai.Approval.Domain.{
  ApprovalRequestRecord, ErrorCode, tenant_mismatch, kill_switch_active, approval_expired,
  policy_stale, budget_exceeded,
}

pub data RevalidationCheckpoint : Type 0 where
  pre_creation on_submission on_approval pre_dry_run pre_dispatch post_result :
      RevalidationCheckpoint

-- `current_policy_digest is not None and current_policy_digest != approval.policy_digest`
abbrev is_policy_stale : Option String → String → Bool
is_policy_stale none digest = false
is_policy_stale (some current) digest = not (str_eq current digest)

-- `budget_remaining_usd is not None and budget_remaining_usd < approval.estimated_cost_usd`
abbrev is_over_budget : Option ℤ → ℤ → Bool
is_over_budget none cost = false
is_over_budget (some remaining) cost = ltb_ℤ remaining cost

-- The checkpoint only goes into the messages.
unfoldable pub revalidate :
    String
    → ApprovalRequestRecord
    → RevalidationCheckpoint
    → Option String
    → Bool
    → Option ℤ
    → UtcDateTime
    → Result ErrorCode (Unit {0})
revalidate ctx_tenant a checkpoint current_policy_digest is_kill_switch_active budget_remaining
      now =
    if not (str_eq ctx_tenant a.tenant_id)
    then err tenant_mismatch
    else if is_kill_switch_active
    then err kill_switch_active
    else if leb a.expiry_time now
    then err approval_expired
    else if is_policy_stale current_policy_digest a.policy_digest
    then err policy_stale
    else if is_over_budget budget_remaining (pos a.estimated_cost_usd)
    then err budget_exceeded
    else ok tt

-- What a request must meet at a checkpoint.
pub record Passes (ctx_tenant : String) (a : ApprovalRequestRecord) (policy : Option String)
    (killed : Bool) (budget : Option ℤ) (now : UtcDateTime) : Type 0 where
  pub own_tenant : ctx_tenant ≡ a.tenant_id
  pub not_killed : killed ≡ false
  pub fresh : now < a.expiry_time
  pub same_policy : {d : String} → policy ≡ some d → d ≡ a.policy_digest
  pub affordable : {left : ℤ} → budget ≡ some left → pos a.estimated_cost_usd ≤ℤ left

revalidate_sound :
    (ctx_tenant : String) (a : ApprovalRequestRecord) (c : RevalidationCheckpoint)
    (policy : Option String) (killed : Bool) (budget : Option ℤ) (now : UtcDateTime)
    → revalidate ctx_tenant a c policy killed budget now ≡ ok tt
    → Passes ctx_tenant a policy killed budget now
unfolding revalidate
revalidate_sound ctx_tenant a c policy killed budget now h = record {
  own_tenant = ground (arith, str_eq→eq ctx_tenant a.tenant_id);
  not_killed = ground arith;
  fresh = ground arith;
  same_policy = λ {d} e. ground (arith, str_eq→eq d a.policy_digest);
  affordable = λ {left} e. ground arith;
}

revalidate_complete :
    (ctx_tenant : String) (a : ApprovalRequestRecord) (c : RevalidationCheckpoint)
    (policy : Option String) (killed : Bool) (budget : Option ℤ) (now : UtcDateTime)
    → Passes ctx_tenant a policy killed budget now
    → revalidate ctx_tenant a c policy killed budget now ≡ ok tt
unfolding revalidate
revalidate_complete ctx_tenant a c none killed none now v =
    ground (arith, eq→str_eq ctx_tenant a.tenant_id)
revalidate_complete ctx_tenant a c none killed (some left) now v =
    ground (arith, eq→str_eq ctx_tenant a.tenant_id, v.affordable {left = left} refl)
revalidate_complete ctx_tenant a c (some d) killed none now v = ground (
  arith,
  eq→str_eq ctx_tenant a.tenant_id,
  v.same_policy {d = d} refl,
  eq→str_eq d a.policy_digest,
)
revalidate_complete ctx_tenant a c (some d) killed (some left) now v = ground (
  arith,
  eq→str_eq ctx_tenant a.tenant_id,
  v.same_policy {d = d} refl,
  eq→str_eq d a.policy_digest,
  v.affordable {left = left} refl,
)

-- At every checkpoint, revalidation succeeds exactly when the context has the request's tenant, no
-- kill switch is active, the expiry is not reached, the current policy digest, if one is given, is
-- the request's, and the remaining budget, if one is given, covers the cost.
pub revalidate_iff :
    (ctx_tenant : String) (a : ApprovalRequestRecord) (c : RevalidationCheckpoint)
    (policy : Option String) (killed : Bool) (budget : Option ℤ) (now : UtcDateTime)
    → (revalidate ctx_tenant a c policy killed budget now ≡ ok tt)
      ↔ Passes ctx_tenant a policy killed budget now
revalidate_iff ctx_tenant a c policy killed budget now = (
  revalidate_sound ctx_tenant a c policy killed budget now,
  revalidate_complete ctx_tenant a c policy killed budget now,
)
