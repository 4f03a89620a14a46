-- ===== src/ToolGateway/Broker/Scope.antt =====
-- Which calls a token of tool_gateway/action/credential_broker.py is good for.
use mathlib.Core.List.{append_assoc}
use rev_pilot_ai.Base.{
  ℕ, ◌+◌, ◌<◌, String, true, false, List, [], ◌∷◌, ◌++◌, ◌≡◌, ap, ◌∙◌, sym, subst, arith, ok, codes,
  is_prefix, is_infix, str_eq, str_eq_self, str_eq→eq, Bool-cases, inl, inr,
}
use rev_pilot_ai.Base.Int.{ℤ, pos, negsuc, ltb_ℤ, ◌≤ℤ◌}
use rev_pilot_ai.Base.Time.{UtcDateTime, seconds}
use rev_pilot_ai.ToolGateway.Broker.{
  EphemeralCredential, TokenRequest, Tokens, new_credential, issue_ephemeral_token, validate_token,
  scope_of, tenant_prefix, provider_part, action_suffix, is_suffix, later, max_ttl_seconds,
}
use rev_pilot_ai.ToolGateway.Broker.Texts.{
  codes-prefixed, codes-injective, is_prefix-append, is_infix-append, is_suffix-append,
  is_prefix-colon, is_prefix_under, NoColon,
}

-- The code points of a scope.
scope_codes : (t p a : String) → List ℕ
scope_codes t p a =
    codes "tenant:"
    ++ (codes t ++ (codes ":provider:" ++ (codes p ++ (codes ":action:" ++ codes a))))

codes-scope_of : (t p a : String) → codes (scope_of t p a) ≡ scope_codes t p a
unfolding scope_of scope_codes
codes-scope_of t p a = simp (codes-prefixed)

tenant_prefix-codes : (t : String) → tenant_prefix t ≡ codes "tenant:" ++ (codes t ++ b':' ∷ [])
tenant_prefix-codes t = simp (codes-prefixed)

provider_part-codes : (p : String) → provider_part p ≡ codes ":provider:" ++ (codes p ++ b':' ∷ [])
provider_part-codes p = simp (codes-prefixed)

action_suffix-codes : (a : String) → action_suffix a ≡ codes ":action:" ++ codes a
action_suffix-codes a = simp (codes-prefixed)

scope-prefix : (t p a : String) → is_prefix (tenant_prefix t) (codes (scope_of t p a)) ≡ true
unfolding scope_codes
scope-prefix t p a =
    let first = codes "tenant:" ++ (codes t ++ b':' ∷ []) in
    let rest = codes "provider:" ++ (codes p ++ (codes ":action:" ++ codes a)) in
    let whole : first ++ rest ≡ codes (scope_of t p a) =
      append_assoc (codes "tenant:") (codes t ++ b':' ∷ []) rest
      ∙ (ap (λ x. codes "tenant:" ++ x) (append_assoc (codes t) (b':' ∷ []) rest)
          ∙ sym (codes-scope_of t p a)) in
    subst (λ x. is_prefix (tenant_prefix t) x ≡ true) whole
      (subst (λ x. is_prefix x (first ++ rest) ≡ true) (sym (tenant_prefix-codes t))
        (is_prefix-append first rest))

scope-infix : (t p a : String) → is_infix (provider_part p) (codes (scope_of t p a)) ≡ true
unfolding scope_codes
scope-infix t p a =
    let before = codes "tenant:" ++ codes t in
    let part = codes ":provider:" ++ (codes p ++ b':' ∷ []) in
    let rest = codes "action:" ++ codes a in
    let whole : before ++ (part ++ rest) ≡ codes (scope_of t p a) =
      append_assoc (codes "tenant:") (codes t) (part ++ rest)
      ∙ (ap (λ x. codes "tenant:" ++ (codes t ++ x))
            (append_assoc (codes ":provider:") (codes p ++ b':' ∷ []) rest
              ∙ ap (λ x. codes ":provider:" ++ x) (append_assoc (codes p) (b':' ∷ []) rest))
          ∙ sym (codes-scope_of t p a)) in
    subst (λ x. is_infix (provider_part p) x ≡ true) whole
      (subst (λ x. is_infix x (before ++ (part ++ rest)) ≡ true) (sym (provider_part-codes p))
        (is_infix-append before part rest))

scope-suffix : (t p a : String) → is_suffix (action_suffix a) (codes (scope_of t p a)) ≡ true
unfolding scope_codes
scope-suffix t p a =
    let before = codes "tenant:" ++ (codes t ++ (codes ":provider:" ++ codes p)) in
    let part = codes ":action:" ++ codes a in
    let whole : before ++ part ≡ codes (scope_of t p a) =
      append_assoc (codes "tenant:") (codes t ++ (codes ":provider:" ++ codes p)) part
      ∙ (ap (λ x. codes "tenant:" ++ x)
            (append_assoc (codes t) (codes ":provider:" ++ codes p) part
              ∙ ap (λ x. codes t ++ x) (append_assoc (codes ":provider:") (codes p) part))
          ∙ sym (codes-scope_of t p a)) in
    subst (λ x. is_suffix (action_suffix a) x ≡ true) whole
      (subst (λ x. is_suffix x (before ++ part) ≡ true) (sym (action_suffix-codes a))
        (is_suffix-append before part))

-- A token asked for with an allowed lifetime and a provider is issued, and until it expires it is valid for
-- the tenant, the provider and the action that it was asked for.
pub issue_ephemeral_token-validate_token :
    (q : TokenRequest) (now as_of : UtcDateTime) (s : Tokens)
    → q.ttl_seconds ≤ℤ max_ttl_seconds
    → str_eq q.provider "" ≡ false
    → as_of < later now q.ttl_seconds
    → (c : EphemeralCredential) × (((issue_ephemeral_token q now s).0 ≡ ok c)
        × (validate_token c q.tenant_id q.provider q.action_type as_of ≡ ok tt))
unfolding issue_ephemeral_token validate_token
issue_ephemeral_token-validate_token q now as_of s ttl named fresh =
    let t = scope-prefix q.tenant_id q.provider q.action_type in
    let p = scope-infix q.tenant_id q.provider q.action_type in
    let a = scope-suffix q.tenant_id q.provider q.action_type in
    let self = str_eq_self q.provider in (new_credential q now, (ground arith, ground arith))

issued :
    (q : TokenRequest) (now : UtcDateTime) (s : Tokens) (c : EphemeralCredential)
    → (issue_ephemeral_token q now s).0 ≡ ok c
    → (c ≡ new_credential q now) × (q.ttl_seconds ≤ℤ max_ttl_seconds)
unfolding issue_ephemeral_token
issued q now s c h = elim (Bool-cases (ltb_ℤ max_ttl_seconds q.ttl_seconds)) [
  | inl e ↦ absurd (cc)
  | inr e ↦ elim (Bool-cases (str_eq q.provider "")) [
    | inl f ↦ absurd (cc)
    | inr f ↦ (cc, ground arith)
  ]
]

within_ttl :
    (now as_of : UtcDateTime) (ttl : ℤ)
    → ttl ≤ℤ max_ttl_seconds
    → as_of < later now ttl
    → as_of < now + seconds 900
within_ttl now as_of (pos n) le live = omega arith
within_ttl now as_of (negsuc n) le live = omega arith

same_tenant :
    (t u p a : String)
    → NoColon (codes t)
    → NoColon (codes u)
    → is_prefix (tenant_prefix t) (codes (scope_of u p a)) ≡ true
    → t ≡ u
unfolding scope_codes
same_tenant t u p a own foreign h =
    let rest = codes "provider:" ++ (codes p ++ (codes ":action:" ++ codes a)) in
    let at : is_prefix (codes "tenant:" ++ (codes t ++ b':' ∷ []))
          (codes "tenant:" ++ (codes u ++ b':' ∷ rest))
        ≡ true =
      subst (λ x. is_prefix x (codes "tenant:" ++ (codes u ++ b':' ∷ rest)) ≡ true)
        (tenant_prefix-codes t)
        (subst (λ x. is_prefix (tenant_prefix t) x ≡ true) (codes-scope_of u p a) h) in
    codes-injective t u (
      is_prefix-colon (codes t) (codes u) rest own foreign
        (is_prefix_under (codes "tenant:") (codes t ++ b':' ∷ []) (codes u ++ b':' ∷ rest) at))

validated :
    (c : EphemeralCredential) (t p a : String) (as_of : UtcDateTime)
    → validate_token c t p a as_of ≡ ok tt
    → (as_of < c.expires_at)
      × ((is_prefix (tenant_prefix t) (codes c.scope) ≡ true) × (str_eq c.target_provider p ≡ true))
unfolding validate_token
validated c t p a as_of h = (ground arith, (ground arith, ground arith))

-- Where the broker has issued a token, and that token passes the check for a tenant and a provider: these
-- are the tenant and the provider that it was asked for, and less than 15 minutes have passed since, if
-- both tenants' identifiers hold no colon. Whether a credential was issued at all the check does not ask.
pub validate_token-issued :
    (q : TokenRequest) (now as_of : UtcDateTime) (s : Tokens) (c : EphemeralCredential)
    (t p a : String)
    → NoColon (codes q.tenant_id)
    → NoColon (codes t)
    → (issue_ephemeral_token q now s).0 ≡ ok c
    → validate_token c t p a as_of ≡ ok tt
    → (t ≡ q.tenant_id) × ((p ≡ q.provider) × (as_of < now + seconds 900))
validate_token-issued q now as_of s c t p a own foreign given passes =
    let (same, ttl) = issued q now s c given in
    let (live, (tenant, provider)) = validated c t p a as_of passes in
    let scope = subst (λ x. is_prefix (tenant_prefix t) (codes x.scope) ≡ true) same tenant in
    (
      same_tenant t q.tenant_id q.provider q.action_type foreign own scope,
      (
        sym (str_eq→eq q.provider p (subst (λ x. str_eq x.target_provider p ≡ true) same provider)),
        within_ttl now as_of q.ttl_seconds ttl (subst (λ x. as_of < x.expires_at) same live),
      ),
    )
