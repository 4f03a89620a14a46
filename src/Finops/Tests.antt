-- ===== src/Finops/Tests.antt =====
-- A tenant whose spend is reserved, finalized and released, on top of an empty manager.
use rev_pilot_ai.Base.{◌≡◌, refl, none, some, [], ok}
use rev_pilot_ai.Base.Int.{ℤ, pos, ◌+ℤ◌, ◌-ℤ◌}
use rev_pilot_ai.Base.Money.{dollars}
use rev_pilot_ai.Base.Dict.{lookup, insert}
use rev_pilot_ai.Finops.Quota.{
  SpendReservationToken, QuotaState, new_token, policy_of, available, set_quota_policy,
  reserve_spend, finalize_spend, release_reservation, get_quota_policy,
}
use rev_pilot_ai.Finops.Quota.Balance.{IsBalanced, reserved_for, held}
use rev_pilot_ai.Finops.Quota.Histories.{
  Reached, start, then_reserve, then_finalize, Reached-IsBalanced,
}
use rev_pilot_ai.Finops.Quota.Limits.{set_quota_policy-release_reservation}

abbrev nobody : QuotaState
nobody = record { policies = []; reservations = [] }

nobody-IsBalanced : IsBalanced nobody
unfolding lookup
nobody-IsBalanced t = refl

abbrev ten : ℤ
ten = pos (dollars 10)

free : lookup "k1" nobody.reservations ≡ none
unfolding lookup
free = refl

abbrev reserved : QuotaState
reserved = (reserve_spend "t1" ten "spend_usd" 60 "k1" 1000 nobody).1

reserved-Reached : Reached reserved
reserved-Reached = then_reserve "t1" ten "spend_usd" 60 "k1" 1000 free start

reserved-IsBalanced : IsBalanced reserved
reserved-IsBalanced = Reached-IsBalanced reserved-Reached

Reached-IsBalanced_example :
    reserved_for "t1" (finalize_spend "k1" (pos (dollars 8)) 2000 reserved).1
    ≡ held "t1" (finalize_spend "k1" (pos (dollars 8)) 2000 reserved).1.reservations
Reached-IsBalanced_example =
    Reached-IsBalanced (then_finalize "k1" (pos (dollars 8)) 2000 reserved-Reached) "t1"

abbrev token : SpendReservationToken
token = new_token "k1" "t1" ten "spend_usd" 60 1000

granting : (reserve_spend "t1" ten "spend_usd" 60 "k1" 1000 nobody).0 ≡ ok token
unfolding reserve_spend get_quota_policy policy_of set_quota_policy available lookup insert ◌+ℤ◌
    ◌-ℤ◌
granting = refl

found : lookup "k1" reserved.reservations ≡ some token
unfolding reserve_spend get_quota_policy policy_of set_quota_policy available lookup insert ◌+ℤ◌
    ◌-ℤ◌
found = refl

set_quota_policy-release_reservation_example :
    available (
      policy_of "t1"
        (release_reservation "k1" (set_quota_policy "t1" (pos (dollars 50)) [] reserved)).1)
    ≡ pos (dollars 50) +ℤ ten
set_quota_policy-release_reservation_example =
    set_quota_policy-release_reservation (pos (dollars 50)) [] "k1" token reserved found refl refl
