-- ===== src/Approval/Policy/Ceilings.antt =====
-- The authority of approval/policy/authority.py against the tiers of approval/service.py.
use rev_pilot_ai.Base.{ℕ, zero, suc, refl, ◌≤◌, ◌≡◌, ◌↔◌, true, false, arith, suc}
use rev_pilot_ai.Base.Money.{Usd, dollars}
use rev_pilot_ai.Approval.Domain.{RiskTier}
use rev_pilot_ai.Approval.Service.Create.{compute_required_tier}
use rev_pilot_ai.Approval.Policy.Authority.{
  PrincipalContext, is_agent_principal, get_principal_tier, verify_approver_authority,
}

-- What each tier may approve, at most.
abbrev pub ceiling : ℕ → Usd
ceiling zero = dollars 0
ceiling (suc zero) = dollars 250
ceiling (suc (suc zero)) = dollars 1000
ceiling (suc (suc (suc n))) = dollars 10000

get_principal_tier-le : (p : PrincipalContext) → get_principal_tier p ≤ 3
unfolding get_principal_tier
get_principal_tier-le p = ground arith

verify-tier :
    (tier : ℕ) (p : PrincipalContext) (cost : Usd) (required : ℕ)
    → get_principal_tier p ≡ tier
    → 1 ≤ required
    → (verify_approver_authority p cost required ≡ true)
      ↔ ((is_agent_principal p ≡ false) × (required ≤ tier) × (cost ≤ ceiling tier))
unfolding verify_approver_authority
verify-tier tier p cost required e h =
    (ground (arith, get_principal_tier-le p), ground (arith, get_principal_tier-le p))

-- For a required tier of at least 1, authority is granted exactly to a principal that is no agent,
-- whose tier is at least the required one, and whose tier's ceiling covers the cost.
pub verify_approver_authority_iff :
    (p : PrincipalContext) (cost : Usd) (required : ℕ)
    → 1 ≤ required
    → (verify_approver_authority p cost required ≡ true) ↔ (
        (is_agent_principal p ≡ false)
        × (required ≤ get_principal_tier p)
        × (cost ≤ ceiling (get_principal_tier p)))
verify_approver_authority_iff p cost required h =
    verify-tier (get_principal_tier p) p cost required refl h

-- Where the required tier is the one that the service computes from risk and cost, the ceilings of
-- the first two tiers add nothing: authority is granted exactly to a principal that is no agent and
-- has that tier, for a cost of at most 10,000 dollars.
pub verify_approver_authority-compute_required_tier :
    (p : PrincipalContext) (risk : RiskTier) (cost : Usd)
    → (verify_approver_authority p cost (compute_required_tier risk cost) ≡ true) ↔ (
        (is_agent_principal p ≡ false)
        × (compute_required_tier risk cost ≤ get_principal_tier p)
        × (cost ≤ dollars 10000))
unfolding verify_approver_authority compute_required_tier
verify_approver_authority-compute_required_tier p risk cost =
    (ground (arith, get_principal_tier-le p), ground (arith, get_principal_tier-le p))
