-- ===== src/Finops/Quota/Steps.antt =====
-- `reserve_spend` of finops/quota.py and the closing of a token, against the balance of the running totals.
use rev_pilot_ai.Base.{
  ℕ, ◌≡◌, refl, ◌⊎◌, inl, inr, true, false, String, none, some, arith, str_eq, ap, sym, ◌∙◌, subst,
  str_eq→eq, str_eq_self, Bool-cases,
}
use rev_pilot_ai.Base.Int.{ℤ, pos, ◌+ℤ◌, ◌-ℤ◌, int_laws}
use rev_pilot_ai.Base.Time.{UtcDateTime}
use rev_pilot_ai.Base.Dict.{lookup}
use rev_pilot_ai.Finops.Quota.{
  SpendReservationToken, TenantQuotaPolicy, QuotaState, policy_of, get_quota_policy, put_policy,
  put_token, new_token, hold, reserve_spend,
}
use rev_pilot_ai.Finops.Quota.Balance.{
  amount_of, amount_at, held, reserved_for, IsBalanced, held-insert, reserved_for-put_policy,
  policy_of-reserved, get_quota_policy-ok, get_quota_policy-reservations, get_quota_policy-reserved,
  get_quota_policy-IsBalanced, parts_of,
}

-- Writing a policy whose total moves by `x` with a token of the same tenant that moves by `x`.
move-IsBalanced :
    (t token_id : String) (p : TenantQuotaPolicy) (v : SpendReservationToken) (x : ℤ)
    (s : QuotaState)
    → p.reserved_spend_usd ≡ reserved_for t s +ℤ x
    → amount_of t v ≡ amount_at t token_id s.reservations +ℤ x
    → ((u : String) → str_eq t u ≡ false → amount_of u v ≡ amount_at u token_id s.reservations)
    → IsBalanced s
    → IsBalanced (put_token token_id v (put_policy t p s))
move-IsBalanced t token_id p v x s moved own others b u = elim (Bool-cases (str_eq t u)) [
  | inl same ↦
      let s' = put_token token_id v (put_policy t p s) in
      let total : reserved_for t s' ≡ p.reserved_spend_usd =
        ground (arith, reserved_for-put_policy t t p s, str_eq_self t) in
      let at_t : reserved_for t s' ≡ held t s'.reservations = omega (
        int_laws,
        parts_of total,
        parts_of moved,
        parts_of own,
        parts_of (b t),
        parts_of (held-insert t token_id v s.reservations),
      ) in
      subst (λ y. reserved_for y s' ≡ held y s'.reservations) (str_eq→eq t u same) at_t
  | inr other ↦
      let s' = put_token token_id v (put_policy t p s) in
      let total : reserved_for u s' ≡ reserved_for u s =
        ground (arith, reserved_for-put_policy t u p s, other) in
      omega (
        int_laws,
        parts_of total,
        parts_of (others u other),
        parts_of (b u),
        parts_of (held-insert u token_id v s.reservations),
      )
]

amount_of-other :
    (u : String) (k : SpendReservationToken) → str_eq k.tenant_id u ≡ false → amount_of u k ≡ pos 0
unfolding amount_of
amount_of-other u k h = ground (arith, h)

amount_of-open :
    (k : SpendReservationToken)
    → k.is_finalized ≡ false
    → k.is_released ≡ false
    → amount_of k.tenant_id k ≡ k.reserved_amount
unfolding amount_of
amount_of-open k f r = ground (arith, str_eq_self k.tenant_id, f, r)

amount_of-closed :
    (u : String) (k : SpendReservationToken)
    → (k.is_finalized ≡ true) ⊎ (k.is_released ≡ true)
    → amount_of u k ≡ pos 0
unfolding amount_of
amount_of-closed u k h = ground arith

amount_at-found :
    (u token_id : String) (k : SpendReservationToken) (s : QuotaState)
    → lookup token_id s.reservations ≡ some k
    → amount_at u token_id s.reservations ≡ amount_of u k
amount_at-found u token_id k s found = ground (arith, found)

amount_at-missing :
    (u token_id : String) (s : QuotaState)
    → lookup token_id s.reservations ≡ none
    → amount_at u token_id s.reservations ≡ pos 0
amount_at-missing u token_id s missing = ground (arith, missing)

-- Closing an open token gives its amount back to its tenant's total, whatever is committed.
pub close-IsBalanced :
    (token_id : String) (k k' : SpendReservationToken) (p : TenantQuotaPolicy) (s : QuotaState)
    → lookup token_id s.reservations ≡ some k
    → k.is_finalized ≡ false
    → k.is_released ≡ false
    → (k'.is_finalized ≡ true) ⊎ (k'.is_released ≡ true)
    → p.reserved_spend_usd ≡ reserved_for k.tenant_id s -ℤ k.reserved_amount
    → IsBalanced s
    → IsBalanced (put_token token_id k' (put_policy k.tenant_id p s))
close-IsBalanced token_id k k' p s found f r closed less b =
    let t = k.tenant_id in
    let at_t = amount_at-found t token_id k s found ∙ amount_of-open k f r in
    move-IsBalanced t token_id p k' (pos 0 -ℤ k.reserved_amount) s (omega (int_laws, parts_of less))
      (omega (int_laws, parts_of (amount_of-closed t k' closed), parts_of at_t))
      (λ u h.
        amount_of-closed u k' closed
        ∙ sym (amount_at-found u token_id k s found ∙ amount_of-other u k h))
      b

reserve-states :
    (t : String) (x : ℤ) (dimension : String) (ttl : ℕ) (new_id : String) (now : UtcDateTime)
    (s : QuotaState)
    → let s' = (reserve_spend t x dimension ttl new_id now s).1 in
      let g = (get_quota_policy t s).1 in
      (s' ≡ s)
      ⊎ (s' ≡ g)
      ⊎ (s'
          ≡ put_token new_id
              (new_token new_id t x dimension ttl now)
              (put_policy t (hold x (policy_of t s)) g))
unfolding reserve_spend
reserve-states t x dimension ttl new_id now s = ground (arith, get_quota_policy-ok t s)

-- The storage after `get_quota_policy` holds the tokens and totals of the one before.
module _ (t : String) (s : QuotaState) where
  pub kept_lookup :
      (token_id : String)
      → lookup token_id (get_quota_policy t s).1.reservations ≡ lookup token_id s.reservations
  kept_lookup token_id = ap (lookup token_id) (get_quota_policy-reservations t s)

  pub kept_total : (policy_of t s).reserved_spend_usd ≡ reserved_for t (get_quota_policy t s).1
  kept_total = policy_of-reserved t s ∙ sym (get_quota_policy-reserved t t s)

-- `reserve_spend` keeps the balance, whether it returns or raises, if its fresh identifier is free.
pub reserve_spend-IsBalanced :
    (t : String) (x : ℤ) (dimension : String) (ttl : ℕ) (new_id : String) (now : UtcDateTime)
    (s : QuotaState)
    → lookup new_id s.reservations ≡ none
    → IsBalanced s
    → IsBalanced (reserve_spend t x dimension ttl new_id now s).1
reserve_spend-IsBalanced t x dimension ttl new_id now s free b =
    elim (reserve-states t x dimension ttl new_id now s) [
      | inl same ↦ subst IsBalanced (sym same) b
      | inr (inl same) ↦ subst IsBalanced (sym same) (get_quota_policy-IsBalanced t s b)
      | inr (inr e) ↦
          let k = new_token new_id t x dimension ttl now in
          let g = (get_quota_policy t s).1 in
          let missing = kept_lookup t s new_id ∙ free in
          subst IsBalanced (sym e) (
            move-IsBalanced t new_id (hold x (policy_of t s)) k x g
              (ap (λ y. y +ℤ x) (kept_total t s))
              (omega (
                int_laws,
                parts_of (amount_of-open k refl refl),
                parts_of (amount_at-missing t new_id g missing),
              ))
              (λ u h. amount_of-other u k h ∙ sym (amount_at-missing u new_id g missing))
              (get_quota_policy-IsBalanced t s b))
    ]
