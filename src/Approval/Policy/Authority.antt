-- ===== src/Approval/Policy/Authority.antt =====
-- approval/policy/authority.py, and the principal of shared/context.py that it reads. `lower` is that
-- of ASCII, which the identifiers are made of.
use rev_pilot_ai.Base.{
  ℕ, String, Bool, true, false, ◌&&◌, ◌||◌, Option, List, [], ◌∷◌, codes, codes_eq, is_prefix,
  lower, is_infix, str_eq, strip, ltb, ◌==◌, if◌then◌else◌,
}
use rev_pilot_ai.Base.Money.{Usd, dollars}

-- A `frozenset` of names as a list.
pub record PrincipalContext : Type 0 where
  pub principal_id : String
  pub tenant_id : Option String
  pub roles : List String
  pub permissions : List String
  pub is_system : Bool

-- `name.lower() in (n.lower() for n in names)`
unfoldable pub has_name : String → List String → Bool
unfolding lower
has_name name [] = false
has_name name (n ∷ ns) = codes_eq (lower name) (lower n) || has_name name ns

abbrev pub has_role : PrincipalContext → String → Bool
has_role p role = has_name role p.roles

abbrev pub has_permission : PrincipalContext → String → Bool
has_permission p permission = has_name permission p.permissions

unfoldable pub is_agent_principal : PrincipalContext → Bool
unfolding has_name lower is_infix
is_agent_principal p =
    if has_role p "agent_delegate"
    then true
    else let pid = lower p.principal_id in
      is_infix (codes "agent") pid
      || is_infix (codes "bot") pid
      || is_prefix (codes "usr_agent") pid
      || is_prefix (codes "usr_bot") pid

abbrev pub tier_1_max_spend : Usd
tier_1_max_spend = dollars 250

abbrev pub tier_2_max_spend : Usd
tier_2_max_spend = dollars 1000

abbrev pub tier_3_max_spend : Usd
tier_3_max_spend = dollars 10000

-- `ApprovalTier` is an `IntEnum`: its members are the numbers 1, 2 and 3.
unfoldable pub get_principal_tier : PrincipalContext → ℕ
get_principal_tier p =
    if is_agent_principal p
    then 0
    else if has_permission p "approval:tier_3" || has_role p "platform_admin"
    then 3
    else if has_permission p "approval:tier_2" || has_role p "tenant_admin"
    then 2
    else if has_permission p "approval:tier_1" || has_role p "operator"
    then 1
    else 0

unfoldable pub verify_approver_authority : PrincipalContext → Usd → ℕ → Bool
verify_approver_authority p cost_usd required_tier =
    let tier = get_principal_tier p in
    if is_agent_principal p
    then false
    else if ltb tier_3_max_spend cost_usd
    then false
    else if ltb tier required_tier
    then false
    else if tier == 1 && ltb tier_1_max_spend cost_usd
    then false
    else if tier == 2 && ltb tier_2_max_spend cost_usd
    then false
    else true

unfoldable pub check_separation_of_duties : String → String → Usd → Bool
unfolding strip
check_separation_of_duties proposer_id approver_id cost_usd =
    if str_eq (strip proposer_id) (strip approver_id) && ltb tier_1_max_spend cost_usd
    then false
    else true
