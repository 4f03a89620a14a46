-- ===== src/Constraints/Eligibility.antt =====
-- What the ten checks of constraints/evaluator.py amount to.
use rev_pilot_ai.Base.{
  ℕ, String, true, false, List, [], ◌∷◌, ◌++◌, ◌+◌, ◌≡◌, ◌↔◌, ◌<◌, ◌≤◌, ◌⊎◌, inl, inr, refl, arith,
  All, Among, length, length-append, str_eq→eq, eq→str_eq, Bool-cases,
}
use rev_pilot_ai.Base.Int.{pos, ◌≤ℤ◌}
use rev_pilot_ai.Base.Time.{UtcDateTime, hours, days}
use rev_pilot_ai.Constraints.{
  ConstraintEvaluatorRequest, Check, Audit, append_check, run_checks, hard_checks, is_one_of,
  is_in_cooldown, is_empty, evaluate_hard_constraints,
}

nonempty_snoc : (xs : List String) (x : String) → ¬ (is_empty (xs ++ x ∷ []) ≡ true)
nonempty_snoc [] x h = ground arith
nonempty_snoc (y ∷ xs) x h = ground arith

abbrev Holds : Check → Type 0
Holds c = c.is_violated ≡ false

append_sound :
    (c : Check) (a : Audit)
    → is_empty (append_check c a).violated ≡ true
    → Holds c × (is_empty a.violated ≡ true)
append_sound c a h = elim (Bool-cases c.is_violated) [
  | inl bad ↦ absurd (nonempty_snoc a.violated c.violation (ground (arith, bad)))
  | inr fine ↦ (fine, ground (arith, fine))
]

append_complete :
    (c : Check) (a : Audit)
    → Holds c
    → is_empty a.violated ≡ true
    → is_empty (append_check c a).violated ≡ true
append_complete c a fine e = ground (arith, fine)

run_sound :
    (cs : List Check) (a : Audit)
    → is_empty (run_checks cs a).violated ≡ true
    → All Holds cs × (is_empty a.violated ≡ true)
run_sound [] a h = (tt, h)
run_sound (c ∷ cs) a h =
    let (hs, e) = run_sound cs (append_check c a) h in
    let (fine, e') = append_sound c a e in ((fine, hs), e')

run_complete :
    (cs : List Check) (a : Audit)
    → All Holds cs
    → is_empty a.violated ≡ true
    → is_empty (run_checks cs a).violated ≡ true
run_complete [] a hs e = e
run_complete (c ∷ cs) a hs e = run_complete cs (append_check c a) hs.1 (append_complete c a hs.0 e)

is_one_of-Among : (a : String) (bs : List String) → (is_one_of a bs ≡ true) ↔ Among a bs
is_one_of-Among a [] = (λ h. ground arith, λ h. absurd h)
is_one_of-Among a (b ∷ bs) = ground (arith, str_eq→eq a b, eq→str_eq a b, is_one_of-Among a bs)

-- A past contact that does not block: it lies ahead of `now`, or its cooldown has passed.
abbrev pub IsPassed : ℕ → UtcDateTime → UtcDateTime → Type 0
IsPassed cooldown_days now prev_time = (now < prev_time) ⊎ (prev_time + days cooldown_days ≤ now)

cooldown-All :
    (n : ℕ) (now : UtcDateTime) (ts : List UtcDateTime)
    → (is_in_cooldown n now ts ≡ false) ↔ All (IsPassed n now) ts
unfolding is_in_cooldown
cooldown-All n now [] = ((λ h. tt), (λ h. refl))
cooldown-All n now (t ∷ ts) = ground (arith, cooldown-All n now ts)

-- What a request must meet to be eligible.
pub record IsAdmissible (r : ConstraintEvaluatorRequest) : Type 0 where
  pub own_ledger : r.tenant_id ≡ r.budget_ledger.tenant_id
  pub tier : Among r.customer_tier r.intervention.eligible_tiers
  pub funded : pos r.intervention.estimated_cost_usd ≤ℤ r.budget_ledger.remaining_balance_usd
  pub capacity : r.active_capacity_count < r.max_capacity_limit
  pub rested :
      All (IsPassed r.intervention.max_frequency_days r.current_time) r.customer_history_timestamps
  pub seldom : length r.quarterly_history_timestamps < r.max_quarterly_frequency
  pub consents : r.customer_opt_out ≡ false
  pub included : r.is_excluded ≡ false
  pub contained : r.incident_treated_count < r.max_blast_radius
  pub recent : r.current_time ≤ r.feature_timestamp + hours r.max_feature_staleness_hours

IsAdmissible-sound : (r : ConstraintEvaluatorRequest) → All Holds (hard_checks r) → IsAdmissible r
unfolding hard_checks
IsAdmissible-sound r (a, (b, (c, (d, (e, (f, (g, (h, (i, (j, z)))))))))) = record {
  own_ledger = ground (arith, str_eq→eq r.tenant_id r.budget_ledger.tenant_id);
  tier = (is_one_of-Among r.customer_tier r.intervention.eligible_tiers).0 (ground arith);
  funded = ground arith;
  capacity = ground arith;
  rested = (cooldown-All _ _ _).0 e;
  seldom = ground arith;
  consents = g;
  included = h;
  contained = ground arith;
  recent = ground arith;
}

IsAdmissible-complete :
    (r : ConstraintEvaluatorRequest) → IsAdmissible r → All Holds (hard_checks r)
unfolding hard_checks
IsAdmissible-complete r v = (
  ground (arith, eq→str_eq r.tenant_id r.budget_ledger.tenant_id, v.own_ledger),
  (
    ground (arith, (is_one_of-Among r.customer_tier r.intervention.eligible_tiers).1 v.tier),
    (
      ground (arith, v.funded),
      (
        ground (arith, v.capacity),
        (
          (cooldown-All _ _ _).1 v.rested,
          (
            ground (arith, v.seldom),
            (
              v.consents,
              (v.included, (ground (arith, v.contained), (ground (arith, v.recent), tt))),
            ),
          ),
        ),
      ),
    ),
  ),
)

-- A request is evaluated as eligible exactly when all ten constraints hold: the ledger is its
-- tenant's, the customer's tier is among those allowed, the remaining balance covers the cost, there
-- is dispatch capacity, no past contact is in its cooldown, the quarterly cap is not reached, the
-- customer has neither opted out nor been excluded, the blast radius is not reached and the features
-- are recent enough.
pub evaluate_hard_constraints_iff :
    (r : ConstraintEvaluatorRequest)
    → ((evaluate_hard_constraints r).is_eligible ≡ true) ↔ IsAdmissible r
unfolding evaluate_hard_constraints
evaluate_hard_constraints_iff r = (
  (λ h. IsAdmissible-sound r (run_sound (hard_checks r) _ h).0),
  λ v. run_complete (hard_checks r) _ (IsAdmissible-complete r v) refl,
)

run-length :
    (cs : List Check) (a : Audit)
    → length (run_checks cs a).passed + length (run_checks cs a).violated
      ≡ length a.passed + length a.violated + length cs
run-length [] a = omega arith
run-length (c ∷ cs) a = elim (Bool-cases c.is_violated) [
  | inl bad ↦
      ground
        (arith, bad, run-length cs (append_check c a), length-append a.violated (c.violation ∷ []))
  | inr fine ↦
      ground
        (arith, fine, run-length cs (append_check c a), length-append a.passed (c.passing ∷ []))
]

-- Every evaluation reports on all ten constraints: each is either passed or violated.
pub evaluate_hard_constraints-length :
    (r : ConstraintEvaluatorRequest)
    → let o = evaluate_hard_constraints r in
      length o.passed_constraints + length o.violated_constraints ≡ 10
unfolding evaluate_hard_constraints hard_checks
evaluate_hard_constraints-length r =
    run-length (hard_checks r) (record { passed = []; violated = [] })
