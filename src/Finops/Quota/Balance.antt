-- ===== src/Finops/Quota/Balance.antt =====
-- The amount that open reservations hold for a tenant, against the policy's running total of
-- finops/quota.py.
use rev_pilot_ai.Base.{
  ◌≡◌, inl, inr, not, ◌&&◌, ◌||◌, String, none, some, [], ◌∷◌, arith, str_eq, subst, str_eq→eq,
  Bool-cases, Option-cases, if◌then◌else◌, ok, ◌∙◌, ap, sym,
}
use rev_pilot_ai.Base.Int.{ℤ, pos, pos_part, neg_part, ◌+ℤ◌, int_laws}
use rev_pilot_ai.Base.Dict.{Dict, lookup, insert, lookup-insert}
use rev_pilot_ai.Finops.Quota.{
  new_policy, default_limit, SpendReservationToken, TenantQuotaPolicy, QuotaState, policy_of,
  get_quota_policy, put_policy, set_quota_policy,
}

-- What one token holds for a tenant.
unfoldable pub amount_of : String → SpendReservationToken → ℤ
amount_of t k =
    if str_eq k.tenant_id t && not (k.is_finalized || k.is_released)
    then k.reserved_amount
    else pos 0

abbrev pub held : String → Dict SpendReservationToken → ℤ
held t [] = pos 0
held t ((j, k) ∷ d) = amount_of t k +ℤ held t d

abbrev pub amount_at : String → String → Dict SpendReservationToken → ℤ
amount_at t token_id d = elim (lookup token_id d) [ none ↦ pos 0 | some k ↦ amount_of t k ]

abbrev pub reserved_for : String → QuotaState → ℤ
reserved_for t s = elim (lookup t s.policies) [ none ↦ pos 0 | some p ↦ p.reserved_spend_usd ]

-- The reserved total of every tenant is what its open tokens hold.
abbrev pub IsBalanced : QuotaState → Type 0
IsBalanced s = (t : String) → reserved_for t s ≡ held t s.reservations

abbrev pub parts_of : {a b : ℤ} → a ≡ b → (pos_part a ≡ pos_part b) × (neg_part a ≡ neg_part b)
parts_of e = (ap pos_part e, ap neg_part e)

pub held-insert :
    (t token_id : String) (v : SpendReservationToken) (d : Dict SpendReservationToken)
    → held t (insert token_id v d) +ℤ amount_at t token_id d ≡ held t d +ℤ amount_of t v
unfolding insert lookup
held-insert t token_id v [] = omega int_laws
held-insert t token_id v ((j, k) ∷ d) = elim (Bool-cases (str_eq j token_id)) [
  | inl same ↦
      let e : held t (insert token_id v ((j, k) ∷ d)) ≡ amount_of t v +ℤ held t d =
        ground (arith, same) in
      let f : amount_at t token_id ((j, k) ∷ d) ≡ amount_of t k = ground (arith, same) in
      omega (int_laws, parts_of e, parts_of f)
  | inr other ↦
      let e : held t (insert token_id v ((j, k) ∷ d))
          ≡ amount_of t k +ℤ held t (insert token_id v d) =
        ground (arith, other) in
      let f : amount_at t token_id ((j, k) ∷ d) ≡ amount_at t token_id d = ground (arith, other) in
      omega (int_laws, parts_of e, parts_of f, parts_of (held-insert t token_id v d))
]

pub reserved_for-put_policy :
    (t u : String) (p : TenantQuotaPolicy) (s : QuotaState)
    → reserved_for u (put_policy t p s)
      ≡ (if str_eq t u then p.reserved_spend_usd else reserved_for u s)
reserved_for-put_policy t u p s = ground (arith, lookup-insert t u p s.policies)

pub policy_of-reserved :
    (t : String) (s : QuotaState) → (policy_of t s).reserved_spend_usd ≡ reserved_for t s
unfolding policy_of
policy_of-reserved t s = ground arith

pub get_quota_policy-ok :
    (t : String) (s : QuotaState) → (get_quota_policy t s).0 ≡ ok (policy_of t s)
unfolding get_quota_policy policy_of
get_quota_policy-ok t s = ground arith

pub get_quota_policy-reservations :
    (t : String) (s : QuotaState) → (get_quota_policy t s).1.reservations ≡ s.reservations
unfolding get_quota_policy set_quota_policy
get_quota_policy-reservations t s = ground arith

reserved_for-missing :
    (t u : String) (s : QuotaState)
    → lookup t s.policies ≡ none
    → (if str_eq t u then pos 0 else reserved_for u s) ≡ reserved_for u s
reserved_for-missing t u s missing = elim (Bool-cases (str_eq t u)) [
  | inl same ↦
      let gone : lookup u s.policies ≡ none =
        subst (λ x. lookup x s.policies ≡ none) (str_eq→eq t u same) missing in
      ground (arith, gone)
  | inr other ↦ ground (arith, other)
]

pub get_quota_policy-reserved :
    (t u : String) (s : QuotaState) → reserved_for u (get_quota_policy t s).1 ≡ reserved_for u s
unfolding get_quota_policy set_quota_policy
get_quota_policy-reserved t u s = elim (Option-cases (lookup t s.policies)) [
  | inl missing ↦
      let p = new_policy t default_limit [] in
      let e : (get_quota_policy t s).1 ≡ put_policy t p s = ground (arith, missing) in
      ap (reserved_for u) e ∙ reserved_for-put_policy t u p s ∙ reserved_for-missing t u s missing
  | inr (p, found) ↦
      let e : (get_quota_policy t s).1 ≡ s = ground (arith, found) in ap (reserved_for u) e
]

pub get_quota_policy-IsBalanced :
    (t : String) (s : QuotaState) → IsBalanced s → IsBalanced (get_quota_policy t s).1
get_quota_policy-IsBalanced t s b u =
    get_quota_policy-reserved t u s ∙ b u ∙ ap (held u) (sym (get_quota_policy-reservations t s))
