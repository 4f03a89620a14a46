-- ===== src/Finops/Quota.antt =====
-- finops/quota.py: `QuotaManager`. Each method holds the lock throughout, so it is one step. A stored
-- policy or token that a method mutates is written back. Amounts are whole millionths of a dollar.
pub mod Closing
pub mod Balance
pub mod Steps
pub mod Limits
pub mod Histories
use rev_pilot_ai.Base.{
  ℕ, ◌+◌, String, Bool, true, false, not, ◌&&◌, ◌||◌, Option, none, some, [], Action, Result, ok,
  err, pure, raise, raise_if, modify, gets, or_raise, ◌>>=◌, ◌>>◌, ltb, if◌then◌else◌,
}
use rev_pilot_ai.Base.Int.{ℤ, pos, ◌+ℤ◌, ◌-ℤ◌, ltb_ℤ, leb_ℤ}
use rev_pilot_ai.Base.Money.{dollars}
use rev_pilot_ai.Base.Time.{UtcDateTime, seconds}
use rev_pilot_ai.Base.Dict.{Dict, lookup, insert}

pub record SpendReservationToken : Type 0 where
  pub token_id : String
  pub tenant_id : String
  pub reserved_amount : ℤ
  pub dimension : String
  pub expires_at : UtcDateTime
  pub is_finalized : Bool
  pub is_released : Bool
  pub created_at : UtcDateTime

pub record TenantQuotaPolicy : Type 0 where
  pub tenant_id : String
  pub hard_spend_limit_usd : ℤ
  pub reserved_spend_usd : ℤ
  pub committed_spend_usd : ℤ
  pub dimension_limits : Dict ℤ
  pub current_dimension_usage : Dict ℤ

pub record QuotaState : Type 0 where
  pub policies : Dict TenantQuotaPolicy
  pub reservations : Dict SpendReservationToken

-- `ValueError`, `QuotaExhaustedError`, `ReservationExpiredError`
pub data QuotaError : Type 0 where
  value_error quota_exhausted reservation_expired : QuotaError

abbrev pub Call : Type 0 → Type 0
Call A = Action QuotaState QuotaError A

abbrev pub new_policy : String → ℤ → Dict ℤ → TenantQuotaPolicy
new_policy t limit dimension_limits = record {
  tenant_id = t;
  hard_spend_limit_usd = limit;
  reserved_spend_usd = pos 0;
  committed_spend_usd = pos 0;
  dimension_limits = dimension_limits;
  current_dimension_usage = [];
}

abbrev pub put_policy : String → TenantQuotaPolicy → QuotaState → QuotaState
put_policy t p s = record s { policies = insert t p s.policies }

abbrev pub put_token : String → SpendReservationToken → QuotaState → QuotaState
put_token token_id k s = record s { reservations = insert token_id k s.reservations }

unfoldable pub set_quota_policy : String → ℤ → Dict ℤ → QuotaState → QuotaState
set_quota_policy t limit dimension_limits s = put_policy t (new_policy t limit dimension_limits) s

abbrev pub default_limit : ℤ
default_limit = pos (dollars 1000)

-- The policy that `get_quota_policy` returns; where there is none it stores the default first.
unfoldable pub policy_of : String → QuotaState → TenantQuotaPolicy
policy_of t s = elim (lookup t s.policies) [ none ↦ new_policy t default_limit [] | some p ↦ p ]

unfoldable pub get_quota_policy : String → Call TenantQuotaPolicy
unfolding policy_of set_quota_policy
get_quota_policy t s = elim (lookup t s.policies) [
  | none ↦ (ok (policy_of t s), set_quota_policy t default_limit [] s)
  | some p ↦ (ok p, s)
]

abbrev pub new_token : String → String → ℤ → String → ℕ → UtcDateTime → SpendReservationToken
new_token new_id t estimated dimension ttl_seconds now = record {
  token_id = new_id;
  tenant_id = t;
  reserved_amount = estimated;
  dimension = dimension;
  expires_at = now + seconds ttl_seconds;
  is_finalized = false;
  is_released = false;
  created_at = now;
}

-- `limit - (reserved + committed)`
unfoldable pub available : TenantQuotaPolicy → ℤ
available p = p.hard_spend_limit_usd -ℤ (p.reserved_spend_usd +ℤ p.committed_spend_usd)

abbrev pub hold : ℤ → TenantQuotaPolicy → TenantQuotaPolicy
hold x p = record p { reserved_spend_usd = p.reserved_spend_usd +ℤ x }

abbrev pub let_go : ℤ → TenantQuotaPolicy → TenantQuotaPolicy
let_go x p = record p { reserved_spend_usd = p.reserved_spend_usd -ℤ x }

abbrev pub commit : ℤ → TenantQuotaPolicy → TenantQuotaPolicy
commit x p = record p { committed_spend_usd = p.committed_spend_usd +ℤ x }

unfoldable pub reserve_spend :
    String → ℤ → String → ℕ → String → UtcDateTime → Call SpendReservationToken
reserve_spend t estimated dimension ttl_seconds new_id now = do
  raise_if (leb_ℤ estimated (pos 0)) value_error
  p ← get_quota_policy t
  raise_if (ltb_ℤ (available p) estimated) quota_exhausted
  modify (put_policy t (hold estimated p))
  modify (put_token new_id (new_token new_id t estimated dimension ttl_seconds now))
  pure (new_token new_id t estimated dimension ttl_seconds now)

abbrev pub released : SpendReservationToken → SpendReservationToken
released k = record k { is_released = true }

abbrev pub finalized : SpendReservationToken → SpendReservationToken
finalized k = record k { is_finalized = true }

-- Both ways give the reserved amount back; the second commits the actual one.
abbrev pub expire_token : String → SpendReservationToken → Call (Unit {0})
expire_token token_id k = do
  p ← get_quota_policy k.tenant_id
  modify (put_policy k.tenant_id (let_go k.reserved_amount p))
  modify (put_token token_id (released k))
  raise reservation_expired

abbrev pub settle_token : String → SpendReservationToken → ℤ → Call (Unit {0})
settle_token token_id k actual = do
  p ← get_quota_policy k.tenant_id
  modify (put_policy k.tenant_id (commit actual (let_go k.reserved_amount p)))
  modify (put_token token_id (finalized k))

unfoldable pub finalize_spend : String → ℤ → UtcDateTime → Call (Unit {0})
finalize_spend token_id actual now = do
  k ← or_raise (← gets (λ s. lookup token_id s.reservations)) value_error
  if k.is_finalized
      then pure tt
      else if k.is_released
      then raise value_error
      else if ltb k.expires_at now
      then expire_token token_id k
      else settle_token token_id k actual

abbrev pub give_back : String → Option SpendReservationToken → Call (Unit {0})
give_back token_id none = pure tt
give_back token_id (some k) = if k.is_finalized || k.is_released then pure tt else do
  p ← get_quota_policy k.tenant_id
  modify (put_policy k.tenant_id (let_go k.reserved_amount p))
  modify (put_token token_id (released k))

unfoldable pub release_reservation : String → Call (Unit {0})
release_reservation token_id = do give_back token_id (← gets (λ s. lookup token_id s.reservations))

-- `policy.current_dimension_usage.get(dimension, 0)`
abbrev pub usage : String → TenantQuotaPolicy → ℤ
usage dimension p = elim (lookup dimension p.current_dimension_usage) [ none ↦ pos 0 | some n ↦ n ]

abbrev pub use_dimension : String → ℤ → TenantQuotaPolicy → TenantQuotaPolicy
use_dimension dimension n p = record p {
  current_dimension_usage = insert dimension n p.current_dimension_usage;
}

-- `limit is None` returns true; otherwise the usage is counted if it fits.
abbrev pub within_dimension : String → String → ℤ → TenantQuotaPolicy → Option ℤ → Call Bool
within_dimension t dimension requested p none = pure true
within_dimension t dimension requested p (some limit) =
    if ltb_ℤ limit (usage dimension p +ℤ requested) then pure false else do
      modify (put_policy t (use_dimension dimension (usage dimension p +ℤ requested) p))
      pure true

unfoldable pub check_rate_limit : String → String → ℤ → Call Bool
check_rate_limit t dimension requested = do
  p ← get_quota_policy t
  within_dimension t dimension requested p (lookup dimension p.dimension_limits)
