-- ===== src/Approval/Service/Reachable.antt =====
-- The requests that calls of approval/service.py on an empty storage can lead to.
use rev_pilot_ai.Base.{
  sym, ◌≡◌, List, [], ◌∷◌, arith, ◌≢◌, Option, String, some, none, str_eq, subst, err, false,
  Option-cases, ap, inl, str_eq_self, inr, Bool-cases, str_eq→eq, sym,
}
use rev_pilot_ai.Base.Time.{UtcDateTime}
use rev_pilot_ai.Base.Dict.{find, inner, lookup}
use rev_pilot_ai.Approval.Domain.{ApprovalRequestRecord, approved, separation_of_duties_violation}
use rev_pilot_ai.Approval.Digest.{Hasher}
use rev_pilot_ai.Approval.Repository.{Storage, get}
use rev_pilot_ai.Approval.Service.Create.{compute_required_tier}
use rev_pilot_ai.Approval.Service.Grant.{Grant, grant_approval, current_digest}
use rev_pilot_ai.Approval.Service.Requests.{
  Request, tenant_of, handle, handle_all, IsNew, Edit, by_grant, by_expiry, by_reject, by_revoke,
  by_amend, Fate, kept, edited, added,
}
use rev_pilot_ai.Approval.Service.Sound.{IsKeyed}
use rev_pilot_ai.Approval.Service.Isolation.{handle-IsKeyed, handle-other_tenant, handle-Fate}

-- The stored digest is that of the stored content, the tier that of the stored risk and cost, the
-- budget held back is the cost, an approved request names who approved it and when, and no request
-- names a requester.
pub record IsGood (hasher : Hasher) (r : ApprovalRequestRecord) : Type 0 where
  pub sealed : r.payload_digest ≡ current_digest hasher r
  pub tiered : r.required_approval_tier ≡ compute_required_tier r.risk_tier r.estimated_cost_usd
  pub reserved : r.reserved_budget_usd ≡ r.estimated_cost_usd
  pub approver_named : r.status ≡ approved → r.approver_principal_id ≢ none
  pub time_named : r.status ≡ approved → r.approval_timestamp ≢ none
  pub no_requester : r.requester_principal_id ≡ none

IsNew-IsGood : (hasher : Hasher) (r : ApprovalRequestRecord) → IsNew hasher r → IsGood hasher r
IsNew-IsGood hasher r n = ground arith

Edit-IsGood :
    {hasher : Hasher} {r r' : ApprovalRequestRecord}
    → Edit hasher r r'
    → IsGood hasher r
    → IsGood hasher r'
Edit-IsGood (by_grant approver now waiting fresh sealed) g = ground arith
Edit-IsGood (by_expiry now waiting due) g = ground arith
Edit-IsGood (by_reject approver reason waiting) g = ground arith
Edit-IsGood (by_revoke reason idle) g = ground arith
Edit-IsGood (by_amend new_id open_still) g = ground arith

abbrev AllGood : Hasher → Option ApprovalRequestRecord → Type 0
AllGood hasher none = Unit
AllGood hasher (some r) = IsGood hasher r

Fate-IsGood :
    {hasher : Hasher} {o o' : Option ApprovalRequestRecord}
    → Fate hasher o o'
    → AllGood hasher o
    → AllGood hasher o'
Fate-IsGood kept g = g
Fate-IsGood (edited e) g = Edit-IsGood e g
Fate-IsGood {hasher} (added {r = r} n) g = IsNew-IsGood hasher r n

-- Every request of a storage stands in its own place and is good.
pub record IsSound (hasher : Hasher) (s : Storage) : Type 0 where
  pub keyed : IsKeyed s
  pub good : (t a : String) → AllGood hasher (get t a s)

handle-IsSound :
    (hasher : Hasher) (q : Request) (s : Storage)
    → IsSound hasher s
    → IsSound hasher (handle hasher q s)
handle-IsSound hasher q s v = record {
  keyed = handle-IsKeyed hasher q s v.keyed;
  good = λ t a. elim (Bool-cases (str_eq (tenant_of q) t)) [
    | inl same ↦
        subst (λ x. AllGood hasher (get x a (handle hasher q s))) (str_eq→eq (tenant_of q) t same)
          (Fate-IsGood (handle-Fate hasher q a s v.keyed) (v.good (tenant_of q) a))
    | inr other ↦
        subst (AllGood hasher) (sym (handle-other_tenant hasher q t a s v.keyed (apart other)))
          (v.good t a)
  ];
}
  where
    apart : {t : String} → str_eq (tenant_of q) t ≡ false → tenant_of q ≢ t
    apart {t} h e = cc (ap (λ x. str_eq x t) e, str_eq_self t, h)

pub handle_all-IsSound :
    (hasher : Hasher) (qs : List Request) (s : Storage)
    → IsSound hasher s
    → IsSound hasher (handle_all hasher qs s)
unfolding handle_all
handle_all-IsSound hasher [] s v = v
handle_all-IsSound hasher (q ∷ qs) s v =
    handle_all-IsSound hasher qs (handle hasher q s) (handle-IsSound hasher q s v)

pub empty-IsSound : (hasher : Hasher) → IsSound hasher []
unfolding get find inner lookup
empty-IsSound hasher = record { keyed = tt; good = λ t a. tt }

-- After any calls on an empty storage, every stored request is good: its digest is that of its
-- content, its tier that of its risk and cost, the budget held back is its cost, and if it is
-- approved it names its approver and the time.
pub reachable-IsGood :
    (hasher : Hasher) (qs : List Request) (t a : String) {r : ApprovalRequestRecord}
    → get t a (handle_all hasher qs []) ≡ some r
    → IsGood hasher r
reachable-IsGood hasher qs t a h =
    subst (AllGood hasher) h ((handle_all-IsSound hasher qs [] (empty-IsSound hasher)).good t a)

no_requester-grant :
    (hasher : Hasher) (g : Grant) (now : UtcDateTime) (s : Storage)
    → ((r : ApprovalRequestRecord)
        → get g.tenant_id g.approval_id s ≡ some r
        → r.requester_principal_id ≡ none)
    → (grant_approval hasher g now s).0 ≢ err separation_of_duties_violation
unfolding grant_approval
no_requester-grant hasher g now s h = elim (Option-cases (get g.tenant_id g.approval_id s)) [
  | inl missing ↦ ground (arith, missing)
  | inr (r, found) ↦ ground (arith, h r found)
]

-- After any calls on an empty storage, no grant is ever refused for separation of duties, whoever
-- asks: no operation of the service records who requested the action.
pub separation_never_raised :
    (hasher : Hasher) (qs : List Request) (g : Grant) (now : UtcDateTime)
    → (grant_approval hasher g now (handle_all hasher qs [])).0 ≢ err separation_of_duties_violation
separation_never_raised hasher qs g now =
    no_requester-grant hasher g now (handle_all hasher qs [])
      (λ r found. (reachable-IsGood hasher qs g.tenant_id g.approval_id found).no_requester)
