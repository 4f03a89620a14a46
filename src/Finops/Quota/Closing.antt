-- ===== src/Finops/Quota/Closing.antt =====
-- `finalize_spend`, `release_reservation` and `check_rate_limit` of finops/quota.py, against the balance.
use rev_pilot_ai.Base.{
  ◌≡◌, refl, ◌⊎◌, inl, inr, true, false, String, none, some, arith, str_eq, ap, sym, ◌∙◌, subst,
  Bool-cases, Option-cases, str_eq_self, str_eq→eq,
}
use rev_pilot_ai.Base.Int.{ℤ, ◌+ℤ◌, ◌-ℤ◌}
use rev_pilot_ai.Base.Time.{UtcDateTime}
use rev_pilot_ai.Base.Dict.{lookup}
use rev_pilot_ai.Finops.Quota.{
  SpendReservationToken, TenantQuotaPolicy, QuotaState, policy_of, get_quota_policy, put_policy,
  put_token, let_go, commit, released, finalized, finalize_spend, release_reservation,
  use_dimension, usage, check_rate_limit,
}
use rev_pilot_ai.Finops.Quota.Balance.{
  IsBalanced, get_quota_policy-ok, get_quota_policy-IsBalanced, reserved_for,
  reserved_for-put_policy, held,
}
use rev_pilot_ai.Finops.Quota.Steps.{close-IsBalanced, kept_lookup, kept_total}

abbrev IsOpen : SpendReservationToken → Type 0
IsOpen k = (k.is_finalized ≡ false) × (k.is_released ≡ false)

-- The storage after a token that is found open gives its amount back, to become `k'`.
abbrev settled :
    String
    → SpendReservationToken
    → SpendReservationToken
    → TenantQuotaPolicy
    → QuotaState
    → QuotaState
settled token_id k k' p s =
    put_token token_id k' (put_policy k.tenant_id p (get_quota_policy k.tenant_id s).1)

finalize-states :
    (token_id : String) (actual : ℤ) (now : UtcDateTime) (k : SpendReservationToken)
    (s : QuotaState)
    → lookup token_id s.reservations ≡ some k
    → let s' = (finalize_spend token_id actual now s).1 in
      let p = let_go k.reserved_amount (policy_of k.tenant_id s) in
      (s' ≡ s)
      ⊎ (IsOpen k
          × ((s' ≡ settled token_id k (released k) p s)
              ⊎ (s' ≡ settled token_id k (finalized k) (commit actual p) s)))
unfolding finalize_spend
finalize-states token_id actual now k s found =
    ground (arith, found, get_quota_policy-ok k.tenant_id s)

settled-IsBalanced :
    (token_id : String) (k k' : SpendReservationToken) (p : TenantQuotaPolicy) (s : QuotaState)
    → lookup token_id s.reservations ≡ some k
    → IsOpen k
    → (k'.is_finalized ≡ true) ⊎ (k'.is_released ≡ true)
    → p.reserved_spend_usd ≡ (policy_of k.tenant_id s).reserved_spend_usd -ℤ k.reserved_amount
    → IsBalanced s
    → IsBalanced (settled token_id k k' p s)
settled-IsBalanced token_id k k' p s found (f, r) closed less b =
    let t = k.tenant_id in
    close-IsBalanced token_id k k' p (get_quota_policy t s).1 (kept_lookup t s token_id ∙ found) f r
      closed (less ∙ ap (λ y. y -ℤ k.reserved_amount) (kept_total t s))
      (get_quota_policy-IsBalanced t s b)

finalize-unknown :
    (token_id : String) (actual : ℤ) (now : UtcDateTime) (s : QuotaState)
    → lookup token_id s.reservations ≡ none
    → (finalize_spend token_id actual now s).1 ≡ s
unfolding finalize_spend
finalize-unknown token_id actual now s missing = ground (arith, missing)

release-unknown :
    (token_id : String) (s : QuotaState)
    → lookup token_id s.reservations ≡ none
    → (release_reservation token_id s).1 ≡ s
unfolding release_reservation
release-unknown token_id s missing = ground (arith, missing)

-- `finalize_spend` keeps the balance, whether it commits, finds the token expired or raises.
pub finalize_spend-IsBalanced :
    (token_id : String) (actual : ℤ) (now : UtcDateTime) (s : QuotaState)
    → IsBalanced s
    → IsBalanced (finalize_spend token_id actual now s).1
finalize_spend-IsBalanced token_id actual now s b =
    elim (Option-cases (lookup token_id s.reservations)) [
      | inl missing ↦ subst IsBalanced (sym (finalize-unknown token_id actual now s missing)) b
      | inr (k, found) ↦ elim (finalize-states token_id actual now k s found) [
        | inl same ↦ subst IsBalanced (sym same) b
        | inr (is_open, inl e) ↦
            subst IsBalanced (sym e)
              (settled-IsBalanced token_id k _ _ s found is_open (inr refl) refl b)
        | inr (is_open, inr e) ↦
            subst IsBalanced (sym e)
              (settled-IsBalanced token_id k _ _ s found is_open (inl refl) refl b)
      ]
    ]

release-states :
    (token_id : String) (k : SpendReservationToken) (s : QuotaState)
    → lookup token_id s.reservations ≡ some k
    → let s' = (release_reservation token_id s).1 in
      let p = let_go k.reserved_amount (policy_of k.tenant_id s) in
      (s' ≡ s) ⊎ (IsOpen k × (s' ≡ settled token_id k (released k) p s))
unfolding release_reservation
release-states token_id k s found = ground (arith, found, get_quota_policy-ok k.tenant_id s)

-- `release_reservation` keeps the balance; a closed or unknown token changes nothing.
pub release_reservation-IsBalanced :
    (token_id : String) (s : QuotaState)
    → IsBalanced s
    → IsBalanced (release_reservation token_id s).1
release_reservation-IsBalanced token_id s b = elim (Option-cases (lookup token_id s.reservations)) [
  | inl missing ↦ subst IsBalanced (sym (release-unknown token_id s missing)) b
  | inr (k, found) ↦ elim (release-states token_id k s found) [
    | inl same ↦ subst IsBalanced (sym same) b
    | inr (is_open, e) ↦
        subst IsBalanced (sym e)
          (settled-IsBalanced token_id k _ _ s found is_open (inr refl) refl b)
  ]
]

check-states :
    (t dimension : String) (requested : ℤ) (s : QuotaState)
    → let s' = (check_rate_limit t dimension requested s).1 in
      let g = (get_quota_policy t s).1 in
      let p = policy_of t s in
      (s' ≡ g) ⊎ (s' ≡ put_policy t (use_dimension dimension (usage dimension p +ℤ requested) p) g)
unfolding check_rate_limit
check-states t dimension requested s = ground (arith, get_quota_policy-ok t s)

pub same-IsBalanced :
    (t : String) (p : TenantQuotaPolicy) (s : QuotaState)
    → p.reserved_spend_usd ≡ reserved_for t s
    → IsBalanced s
    → IsBalanced (put_policy t p s)
same-IsBalanced t p s same b u = elim (Bool-cases (str_eq t u)) [
  | inl here ↦
      let at_t : reserved_for t (put_policy t p s) ≡ held t s.reservations =
        ground (arith, reserved_for-put_policy t t p s, str_eq_self t, same, b t) in
      subst (λ y. reserved_for y (put_policy t p s) ≡ held y s.reservations) (str_eq→eq t u here)
        at_t
  | inr other ↦ ground (arith, reserved_for-put_policy t u p s, other, b u)
]

-- `check_rate_limit` keeps the balance, whether it counts the request or refuses it.
pub check_rate_limit-IsBalanced :
    (t dimension : String) (requested : ℤ) (s : QuotaState)
    → IsBalanced s
    → IsBalanced (check_rate_limit t dimension requested s).1
check_rate_limit-IsBalanced t dimension requested s b =
    elim (check-states t dimension requested s) [
      | inl e ↦ subst IsBalanced (sym e) (get_quota_policy-IsBalanced t s b)
      | inr e ↦ subst IsBalanced (sym e) (
          same-IsBalanced t _ (get_quota_policy t s).1 (kept_total t s)
            (get_quota_policy-IsBalanced t s b))
    ]
