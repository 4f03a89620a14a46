-- ===== src/Finops/Quota/Histories.antt =====
-- The states that calls of finops/quota.py on an empty manager can lead to.
use rev_pilot_ai.Base.{ℕ, ◌≡◌, refl, String, none, [], sym, ◌∙◌}
use rev_pilot_ai.Base.Int.{ℤ, pos}
use rev_pilot_ai.Base.Time.{UtcDateTime}
use rev_pilot_ai.Base.Dict.{Dict, lookup}
use rev_pilot_ai.Finops.Quota.{
  QuotaState, new_policy, set_quota_policy, get_quota_policy, reserve_spend, finalize_spend,
  release_reservation, check_rate_limit,
}
use rev_pilot_ai.Finops.Quota.Balance.{held, reserved_for, IsBalanced, get_quota_policy-IsBalanced}
use rev_pilot_ai.Finops.Quota.Steps.{reserve_spend-IsBalanced}
use rev_pilot_ai.Finops.Quota.Closing.{
  same-IsBalanced, finalize_spend-IsBalanced, release_reservation-IsBalanced,
  check_rate_limit-IsBalanced,
}

-- Any calls, where identifiers of tokens are fresh and a policy is replaced only while its tenant
-- holds nothing.
pub data Reached : QuotaState → Type 0 where
  start : Reached (record { policies = []; reservations = [] })
  then_set :
      {s : QuotaState} (t : String) (limit : ℤ) (dimension_limits : Dict ℤ)
      → held t s.reservations ≡ pos 0
      → Reached s
      → Reached (set_quota_policy t limit dimension_limits s)
  then_get : {s : QuotaState} (t : String) → Reached s → Reached (get_quota_policy t s).1
  then_reserve :
      {s : QuotaState} (t : String) (x : ℤ) (dimension : String) (ttl : ℕ) (new_id : String)
      (now : UtcDateTime)
      → lookup new_id s.reservations ≡ none
      → Reached s
      → Reached (reserve_spend t x dimension ttl new_id now s).1
  then_finalize :
      {s : QuotaState} (token_id : String) (actual : ℤ) (now : UtcDateTime)
      → Reached s
      → Reached (finalize_spend token_id actual now s).1
  then_release :
      {s : QuotaState} (token_id : String) → Reached s → Reached (release_reservation token_id s).1
  then_check :
      {s : QuotaState} (t dimension : String) (requested : ℤ)
      → Reached s
      → Reached (check_rate_limit t dimension requested s).1

empty-IsBalanced : IsBalanced (record { policies = []; reservations = [] })
unfolding lookup
empty-IsBalanced t = refl

set_quota_policy-IsBalanced :
    (t : String) (limit : ℤ) (dimension_limits : Dict ℤ) (s : QuotaState)
    → held t s.reservations ≡ pos 0
    → IsBalanced s
    → IsBalanced (set_quota_policy t limit dimension_limits s)
unfolding set_quota_policy
set_quota_policy-IsBalanced t limit dimension_limits s none_held b =
    same-IsBalanced t (new_policy t limit dimension_limits) s (sym (b t ∙ none_held)) b

-- After any calls on an empty manager, returning or raising, where fresh identifiers are unused and a
-- policy is replaced only while its tenant holds nothing, every tenant's reserved total is what
-- its open tokens hold together.
pub Reached-IsBalanced :
    {s : QuotaState} → Reached s → (t : String) → reserved_for t s ≡ held t s.reservations
Reached-IsBalanced start = empty-IsBalanced
Reached-IsBalanced (then_set {s} t limit dimension_limits zero_held r) =
    set_quota_policy-IsBalanced t limit dimension_limits s zero_held (Reached-IsBalanced r)
Reached-IsBalanced (then_get {s} t r) = get_quota_policy-IsBalanced t s (Reached-IsBalanced r)
Reached-IsBalanced (then_reserve {s} t x dimension ttl new_id now free r) =
    reserve_spend-IsBalanced t x dimension ttl new_id now s free (Reached-IsBalanced r)
Reached-IsBalanced (then_finalize {s} token_id actual now r) =
    finalize_spend-IsBalanced token_id actual now s (Reached-IsBalanced r)
Reached-IsBalanced (then_release {s} token_id r) =
    release_reservation-IsBalanced token_id s (Reached-IsBalanced r)
Reached-IsBalanced (then_check {s} t dimension requested r) =
    check_rate_limit-IsBalanced t dimension requested s (Reached-IsBalanced r)
