-- ===== src/ToolGateway/Gateway/Gates.antt =====
-- What stands before a call of the provider in tool_gateway/action/gateway.py.
use rev_pilot_ai.Base.{
  String, true, false, not, ◌&&◌, Option, [], ◌∷◌, ◌++◌, ok, err, ◌>>◌, str_eq, str_eq→eq, bind_ok,
  bind_err, ◌≡◌, ◌⊎◌, inl, inr, ap, sym, subst, ◌∙◌, arith, Bool-cases, Result-cases, bind_at,
  bind_raises,
}
use rev_pilot_ai.ToolGateway.Broker.{EphemeralCredential, validate_token, issue_ephemeral_token}
use rev_pilot_ai.ToolGateway.Gateway.{
  Gateway, Fresh, ActionCapabilityRequest, ApprovalArtifact, GatewayState, DispatchError,
  invalid_credential, is_digest, or_artifact, is_verified, exchange, revalidate, execution_of,
  call_provider, send, dispatch_action, token_request,
}

module _ (g : Gateway) (f : Fresh) (req : ActionCapabilityRequest) where
  -- The provider was called once, with a credential that passes the check for this request.
  abbrev pub CalledOnce : GatewayState → GatewayState → Type 0
  CalledOnce s s' =
      (c : EphemeralCredential) × ((validate_token c req.tenant_id g.default_provider
            req.action_type req.as_of_time
          ≡ ok tt)
        × (s'.executions ≡ s.executions ++ execution_of req c ∷ []))

  exchange-executions : (s : GatewayState) → (exchange g f req s).1.executions ≡ s.executions
  unfolding exchange
  exchange-executions s =
      elim (Result-cases (issue_ephemeral_token (token_request g f req) f.issued_at s.tokens).0) [
        | inl (c, e) ↦ cc
        | inr (x, e) ↦ cc
      ]

  revalidate_cases :
      (c : EphemeralCredential) (s : GatewayState)
      → ((validate_token c req.tenant_id g.default_provider req.action_type req.as_of_time ≡ ok tt)
          × (revalidate g req c s ≡ (ok tt, s)))
        ⊎ ((e : DispatchError) × (revalidate g req c s ≡ (err e, s)))
  unfolding revalidate
  revalidate_cases c s =
      elim (Result-cases
        (validate_token c req.tenant_id g.default_provider req.action_type req.as_of_time)) [
          | inl (u, e) ↦ inl (e, cc)
          | inr (x, e) ↦ inr (invalid_credential x, cc)
        ]

  send-executions :
      (s : GatewayState)
      → ((send g f req s).1.executions ≡ s.executions) ⊎ CalledOnce s (send g f req s).1
  unfolding send call_provider
  send-executions s = elim (Result-cases (exchange g f req s).0) [
    | inl (c, e) ↦
        let s1 = (exchange g f req s).1 in
        let quiet = exchange-executions s in
        let rest = λ (c : EphemeralCredential). revalidate g req c >> call_provider g f req c in
        let issued = bind_ok (exchange g f req) rest s e in
        elim (revalidate_cases c s1) [
          | inl (valid, v) ↦
              let called = bind_at (revalidate g req c) (λ _. call_provider g f req c) s1 v in
              inr (
                c,
                (
                  valid,
                  ap (λ o. o.1.executions) (issued ∙ called)
                      ∙ ap (λ x. x ++ execution_of req c ∷ []) quiet,
                ),
              )
          | inr (x, v) ↦
              let stopped = bind_raises (revalidate g req c) (λ _. call_provider g f req c) s1 v in
              inl (ap (λ o. o.1.executions) (issued ∙ stopped) ∙ quiet)
        ]
    | inr (x, e) ↦
        let stopped =
          bind_err (exchange g f req)
            (λ (c : EphemeralCredential). revalidate g req c >> call_provider g f req c) s e in
        inl (ap (λ o. o.1.executions) stopped ∙ exchange-executions s)
  ]

  -- The gates before the credential.
  abbrev pub Passes : String → Option ApprovalArtifact → Type 0
  Passes ctx artifact =
      ((not g.is_test && g.is_mock) ≡ false)
      × ((ctx ≡ req.tenant_id)
          × ((is_digest req.approval_digest ≡ true)
              × ((is_verified g (or_artifact artifact req.approval_artifact) req.approval_digest
                    ≡ true)
                  × (req.is_dry_run ≡ false))))

  -- A dispatch leaves the provider alone, or it calls it exactly once, with a credential that is valid for
  -- the request, and then every gate was passed: no mock outside tests, the tenant of the context, a
  -- digest of 64 characters that the artifact verifies where there is one, and no dry run.
  pub dispatch_action-executions :
      (ctx : String) (artifact : Option ApprovalArtifact) (s : GatewayState)
      → let s' = (dispatch_action g f ctx req artifact s).1 in
        (s'.executions ≡ s.executions) ⊎ (Passes ctx artifact × CalledOnce s s')
  unfolding dispatch_action
  dispatch_action-executions ctx artifact s = elim (Bool-cases (not g.is_test && g.is_mock)) [
    | inl e ↦ inl (cc)
    | inr e ↦ elim (Bool-cases (str_eq ctx req.tenant_id)) [
      | inr t ↦ inl (cc)
      | inl t ↦ elim (Bool-cases (is_digest req.approval_digest)) [
        | inr d ↦ inl (cc)
        | inl d ↦
            elim (Bool-cases
              (is_verified g (or_artifact artifact req.approval_artifact) req.approval_digest)) [
                | inr v ↦ inl (cc)
                | inl v ↦ elim (Bool-cases req.is_dry_run) [
                  | inl y ↦ inl (cc)
                  | inr y ↦
                      let whole : dispatch_action g f ctx req artifact s ≡ send g f req s = cc in
                      elim (send-executions s) [
                        | inl quiet ↦ inl (ap (λ o. o.1.executions) whole ∙ quiet)
                        | inr called ↦ inr (
                          (e, (str_eq→eq ctx req.tenant_id t, (d, (v, y)))),
                          subst (λ o. CalledOnce s o.1) (sym whole) called,
                        )
                      ]
                ]
              ]
      ]
    ]
  ]

  -- A dry run issues no credential and calls no provider.
  pub dispatch_action-dry_run :
      (ctx : String) (artifact : Option ApprovalArtifact) (s : GatewayState)
      → req.is_dry_run ≡ true
      → (dispatch_action g f ctx req artifact s).1 ≡ s
  unfolding dispatch_action
  dispatch_action-dry_run ctx artifact s dry = ground arith
