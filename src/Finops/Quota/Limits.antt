-- ===== src/Finops/Quota/Limits.antt =====
-- What is available of a tenant's limit in finops/quota.py.
use rev_pilot_ai.Base.{ℕ, ◌≡◌, refl, true, false, String, some, ok, arith, str_eq_self, ap, ◌∙◌}
use rev_pilot_ai.Base.Int.{ℤ, pos, leb_ℤ, ◌+ℤ◌, ◌-ℤ◌, int_laws, ltb_ℤ, -ℤ_parts}
use rev_pilot_ai.Base.Time.{UtcDateTime}
use rev_pilot_ai.Base.Dict.{Dict, lookup, lookup-insert, insert}
use rev_pilot_ai.Finops.Quota.{
  SpendReservationToken, QuotaState, policy_of, get_quota_policy, set_quota_policy, available,
  reserve_spend, release_reservation, hold, new_policy, TenantQuotaPolicy, let_go,
}
use rev_pilot_ai.Finops.Quota.Balance.{get_quota_policy-ok, parts_of}

reserve-granted :
    (t : String) (x : ℤ) (dimension : String) (ttl : ℕ) (new_id : String) (now : UtcDateTime)
    (s : QuotaState) (k : SpendReservationToken)
    → (reserve_spend t x dimension ttl new_id now s).0 ≡ ok k
    → ((reserve_spend t x dimension ttl new_id now s).1.policies
        ≡ insert t (hold x (policy_of t s)) (get_quota_policy t s).1.policies)
      × (ltb_ℤ (available (policy_of t s)) x ≡ false)
unfolding reserve_spend
reserve-granted t x dimension ttl new_id now s k granted = ground (arith, get_quota_policy-ok t s)

found-policy_of :
    (t : String) (p : TenantQuotaPolicy) (d : Dict TenantQuotaPolicy) (s : QuotaState)
    → s.policies ≡ insert t p d
    → policy_of t s ≡ p
unfolding policy_of
found-policy_of t p d s e =
    let found : lookup t s.policies ≡ some p =
      ap (lookup t) e ∙ ground (arith, lookup-insert t t p d, str_eq_self t) in
    ground (arith, found)

hold-available : (x : ℤ) (p : TenantQuotaPolicy) → available (hold x p) ≡ available p -ℤ x
unfolding available
hold-available x p = omega int_laws

left_fits : (a x left : ℤ) → left ≡ a -ℤ x → ltb_ℤ a x ≡ false → leb_ℤ (pos 0) left ≡ true
left_fits a x left e fits = ground (arith, -ℤ_parts a x, parts_of e, fits)

-- A reservation that `reserve_spend` grants fits: what is still available of the tenant's limit
-- has gone down by its amount and is not negative.
pub reserve_spend-available :
    (t : String) (x : ℤ) (dimension : String) (ttl : ℕ) (new_id : String) (now : UtcDateTime)
    (s : QuotaState) (k : SpendReservationToken)
    → (reserve_spend t x dimension ttl new_id now s).0 ≡ ok k
    → let left = available (policy_of t (reserve_spend t x dimension ttl new_id now s).1) in
      (left ≡ available (policy_of t s) -ℤ x) × (leb_ℤ (pos 0) left ≡ true)
reserve_spend-available t x dimension ttl new_id now s k granted =
    let (stored, fits) = reserve-granted t x dimension ttl new_id now s k granted in
    let e = found-policy_of t _ _ _ stored in
    let less = ap available e ∙ hold-available x (policy_of t s) in
    (less, left_fits _ x _ less fits)

release-open :
    (token_id : String) (k : SpendReservationToken) (s : QuotaState)
    → lookup token_id s.reservations ≡ some k
    → k.is_finalized ≡ false
    → k.is_released ≡ false
    → (release_reservation token_id s).1.policies
      ≡ insert k.tenant_id
          (let_go k.reserved_amount (policy_of k.tenant_id s))
          (get_quota_policy k.tenant_id s).1.policies
unfolding release_reservation
release-open token_id k s found f r = ground (arith, found, f, r, get_quota_policy-ok k.tenant_id s)

set_quota_policy-policies :
    (t : String) (limit : ℤ) (dimension_limits : Dict ℤ) (s : QuotaState)
    → let s' = set_quota_policy t limit dimension_limits s in
      (s'.policies ≡ insert t (new_policy t limit dimension_limits) s.policies)
      × (s'.reservations ≡ s.reservations)
unfolding set_quota_policy
set_quota_policy-policies t limit dimension_limits s = (refl, refl)

fresh-available :
    (t : String) (limit x : ℤ) (dimension_limits : Dict ℤ)
    → available (let_go x (new_policy t limit dimension_limits)) ≡ limit +ℤ x
unfolding available
fresh-available t limit x dimension_limits = omega int_laws

-- Where `set_quota_policy` replaces a policy while a token of the tenant is open, releasing the
-- token then makes more available than the new limit, by the token's amount.
pub set_quota_policy-release_reservation :
    (limit : ℤ) (dimension_limits : Dict ℤ) (token_id : String) (k : SpendReservationToken)
    (s : QuotaState)
    → lookup token_id s.reservations ≡ some k
    → k.is_finalized ≡ false
    → k.is_released ≡ false
    → let t = k.tenant_id in
      let s' = (release_reservation token_id (set_quota_policy t limit dimension_limits s)).1 in
      available (policy_of t s') ≡ limit +ℤ k.reserved_amount
set_quota_policy-release_reservation limit dimension_limits token_id k s found f r =
    let t = k.tenant_id in
    let s0 = set_quota_policy t limit dimension_limits s in
    let (stored, same) = set_quota_policy-policies t limit dimension_limits s in
    let now = found-policy_of t _ _ s0 stored in
    let after =
      found-policy_of t _ _ _
        (release-open token_id k s0 (ap (lookup token_id) same ∙ found) f r) in
    ap available after
    ∙ ap (λ p. available (let_go k.reserved_amount p)) now
    ∙ fresh-available t limit k.reserved_amount dimension_limits
