-- ===== src/Approval/Tests.antt =====
-- A request of one tenant that is created, granted and asked for again; principals and checkpoints.
use rev_pilot_ai.Base.{
  ◌≡◌, ◌↔◌, ◌≤◌, ◌≢◌, ◌⊎◌, refl, true, false, none, some, [], ◌∷◌, ok, err, arith, ◌+◌, eq→str_eq,
}
use mathlib.Core.Option
use rev_pilot_ai.Base.Money.{dollars}
use rev_pilot_ai.Base.Time.{UtcDateTime, hours}
use rev_pilot_ai.Base.Dict.{lookup, insert, inner, find, store}
use rev_pilot_ai.Approval.Domain.{
  ApprovalRequestRecord, pending, low, already_used, approval_expired,
  separation_of_duties_violation,
}
use rev_pilot_ai.Approval.Digest.{
  Hasher, text, compute_payload_digest, compute_policy_digest, canonical,
}
use rev_pilot_ai.Approval.Repository.{Storage, get, save, update}
use rev_pilot_ai.Approval.StateMachine.{ApprovalState, transition}
use rev_pilot_ai.Approval.StateMachine
use rev_pilot_ai.Approval.StateMachine.Paths.{
  Succeeds, ◌⟶◌, Trail, here, then, transition_iff_⟶, approve,
}
use rev_pilot_ai.Approval.Service.Create.{
  CreateRequest, compute_required_tier, create_request, created_record,
}
use rev_pilot_ai.Approval.Service.Grant.{Grant, grant_approval, granted}
use rev_pilot_ai.Approval.Service.Change.{expire_stale_requests, expired_record}
use rev_pilot_ai.Approval.Service.Requests.{create, grant, expire, handle, handle_all, Fate}
use rev_pilot_ai.Approval.Service.Sound.{IsKeyed}
use rev_pilot_ai.Approval.Service.Granting.{IsGrantable, grant_iff, grant_error, replay_refused}
use rev_pilot_ai.Approval.Service.Expiry.{after_expiry, expire_stale_requests-get}
use rev_pilot_ai.Approval.Service.Isolation.{handle-other_tenant, handle-Fate}
use rev_pilot_ai.Approval.Service.Reachable.{
  IsGood, handle_all-IsSound, empty-IsSound, reachable-IsGood, separation_never_raised,
}
use rev_pilot_ai.Approval.Policy.Authority.{
  PrincipalContext, is_agent_principal, get_principal_tier, verify_approver_authority,
}
use rev_pilot_ai.Approval.Policy.Ceilings.{ceiling, verify_approver_authority_iff}

abbrev hasher : Hasher
hasher = record { payload_hex = λ c. c.payload; policy_hex = λ p. "policy" }

abbrev asked : CreateRequest
asked = record {
  tenant_id = "t1";
  decision_id = "d1";
  action_type = "email_offer";
  target_customer_id = "c1";
  target_entity_refs = "c1" ∷ [];
  action_payload = "{}";
  estimated_cost_usd = dollars 100;
  risk_tier = low;
  decision_digest = "dd";
  policy_rules = text "rules";
  ttl_hours = 24;
  investigation_id = none;
  correlation_id = none;
  causation_id = none;
}

abbrev waiting : ApprovalRequestRecord
waiting = record {
  approval_id = "a1";
  tenant_id = "t1";
  decision_id = "d1";
  investigation_id = none;
  action_type = "email_offer";
  action_version = "1.0.0";
  target_customer_id = "c1";
  target_entity_refs = "c1" ∷ [];
  action_payload = "{}";
  payload_digest = "{}";
  policy_digest = "policy";
  estimated_cost_usd = dollars 100;
  reserved_budget_usd = dollars 100;
  risk_tier = low;
  required_approval_tier = 1;
  requester_principal_id = none;
  approver_principal_id = none;
  approval_timestamp = none;
  rejection_reason = none;
  revocation_reason = none;
  expiry_time = 1000 + hours 24;
  status = pending;
  decision_digest = "dd";
  correlation_id = "a1";
  causation_id = "d1";
  created_at = 1000;
  superseded_by = none;
}

abbrev stored : Storage
stored = ("t1", ("a1", waiting) ∷ []) ∷ []

abbrev boss : Grant
boss = record {
  tenant_id = "t1";
  approval_id = "a1";
  approver_principal_id = "boss";
  approver_tier = 1;
  expected_digest = "{}";
  is_human = true;
}

abbrev signed : ApprovalRequestRecord
signed = granted waiting "boss" 2000

abbrev after : Storage
after = ("t1", ("a1", signed) ∷ []) ∷ []

abbrev too_late : UtcDateTime
too_late = 1000 + hours 24

granting : grant_approval hasher boss 2000 stored ≡ (ok signed, after)
unfolding grant_approval get update compute_payload_digest canonical lookup insert inner find store
granting = refl

expiring :
    grant_approval hasher boss too_late stored
    ≡ (err approval_expired, ("t1", ("a1", expired_record waiting) ∷ []) ∷ [])
unfolding grant_approval get update lookup insert inner find store
expiring = refl

handling :
    get "t1" "a1" (handle_all hasher (create asked "a1" 1000 ∷ grant boss 2000 ∷ []) [])
    ≡ some signed
unfolding handle_all handle create_request created_record compute_policy_digest
    compute_required_tier save grant_approval get update compute_payload_digest canonical lookup
    insert inner find store
handling = refl

made-IsKeyed : IsKeyed (handle_all hasher (create asked "a1" 1000 ∷ []) [])
made-IsKeyed =
    (handle_all-IsSound hasher (create asked "a1" 1000 ∷ []) [] (empty-IsSound hasher)).keyed

grant_iff_example : (grant_approval hasher boss 2000 stored ≡ (ok signed, after)) ↔ (
    (r : ApprovalRequestRecord) × (get "t1" "a1" stored ≡ some r)
    × IsGrantable hasher boss 2000 r
    × (signed ≡ granted r "boss" 2000)
    × (after ≡ update signed stored))
grant_iff_example = grant_iff hasher boss 2000 stored after signed

replay_refused_example :
    grant_approval hasher (record boss { approver_principal_id = "other" }) 3000 after
    ≡ (err already_used, after)
replay_refused_example =
    replay_refused hasher boss (record boss { approver_principal_id = "other" }) 2000 3000 stored
      after signed granting refl refl refl refl refl refl

grant_error_example :
    (("t1", ("a1", expired_record waiting) ∷ []) ∷ [] ≡ stored)
    ⊎ ((r : ApprovalRequestRecord) × (get "t1" "a1" stored ≡ some r)
        × (r.status ≡ pending)
        × (r.expiry_time ≤ too_late)
        × (approval_expired ≡ approval_expired)
        × (("t1", ("a1", expired_record waiting) ∷ []) ∷ [] ≡ update (expired_record r) stored))
grant_error_example = grant_error hasher boss too_late stored expiring

reachable-IsGood_example : IsGood hasher signed
reachable-IsGood_example =
    reachable-IsGood hasher (create asked "a1" 1000 ∷ grant boss 2000 ∷ []) "t1" "a1" handling

separation_never_raised_example :
    (grant_approval hasher boss 2000 (handle_all hasher (create asked "a1" 1000 ∷ []) [])).0
    ≢ err separation_of_duties_violation
separation_never_raised_example =
    separation_never_raised hasher (create asked "a1" 1000 ∷ []) boss 2000

handle-other_tenant_example :
    get "t1" "a1"
      (handle hasher (expire "t2" too_late) (handle_all hasher (create asked "a1" 1000 ∷ []) []))
    ≡ get "t1" "a1" (handle_all hasher (create asked "a1" 1000 ∷ []) [])
handle-other_tenant_example =
    handle-other_tenant hasher (expire "t2" too_late) "t1" "a1"
      (handle_all hasher (create asked "a1" 1000 ∷ []) []) made-IsKeyed
      (λ e. ground (arith, eq→str_eq "t2" "t1" e))

handle-Fate_example :
    Fate hasher (get "t1" "a1" (handle_all hasher (create asked "a1" 1000 ∷ []) [])) (
      get "t1" "a1"
        (handle hasher (grant boss 2000) (handle_all hasher (create asked "a1" 1000 ∷ []) [])))
handle-Fate_example =
    handle-Fate hasher (grant boss 2000) "a1" (handle_all hasher (create asked "a1" 1000 ∷ []) [])
      made-IsKeyed

expire_stale_requests-get_example :
    let s = handle_all hasher (create asked "a1" 1000 ∷ []) [] in
    get "t1" "a1" (expire_stale_requests "t1" too_late s).1
    ≡ Option.map (after_expiry too_late) (get "t1" "a1" s)
expire_stale_requests-get_example =
    expire_stale_requests-get too_late "t1" "a1"
      (handle_all hasher (create asked "a1" 1000 ∷ []) []) made-IsKeyed

transition_iff_⟶_example :
    Succeeds StateMachine.pending StateMachine.approved "boss" none 2000
    ↔ (StateMachine.pending ⟶ StateMachine.approved)
transition_iff_⟶_example =
    transition_iff_⟶ StateMachine.pending StateMachine.approved "boss" none 2000

approving : Succeeds StateMachine.pending StateMachine.approved "boss" none 2000
approving = (transition_iff_⟶ StateMachine.pending StateMachine.approved "boss" none 2000).1 approve

approved_only : Trail StateMachine.pending (StateMachine.approved ∷ []) StateMachine.approved
approved_only = then "boss" none 2000 approving here

abbrev operator : PrincipalContext
operator = record {
  principal_id = "usr_1";
  tenant_id = some "t1";
  roles = "operator" ∷ [];
  permissions = [];
  is_system = false;
}

verify_approver_authority_iff_example :
    (verify_approver_authority operator (dollars 100) 1 ≡ true) ↔ (
      (is_agent_principal operator ≡ false)
      × (1 ≤ get_principal_tier operator)
      × (dollars 100 ≤ ceiling (get_principal_tier operator)))
verify_approver_authority_iff_example =
    verify_approver_authority_iff operator (dollars 100) 1 (omega arith)
