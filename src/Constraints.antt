-- ===== src/Constraints.antt =====
-- constraints/domain.py and constraints/evaluator.py: the hard constraints on one intervention.
pub mod Eligibility
pub mod Filter
pub mod Budget
mod Tests
use rev_pilot_ai.Base.{
  ℕ, String, Bool, true, false, not, ◌&&◌, List, [], ◌∷◌, ◌++◌, ◌+◌, ◌*◌, if◌then◌else◌, ltb, leb,
  str_eq, length,
}
use rev_pilot_ai.Base.Int.{ℤ, pos, ltb_ℤ}
use rev_pilot_ai.Base.Money.{Usd}
use rev_pilot_ai.Base.Time.{UtcDateTime, hours, days}
use rev_pilot_ai.Base.Dict.{Dict, insert}

pub data Risk : Type 0 where
  low medium high : Risk

pub record CandidateIntervention : Type 0 where
  pub candidate_id : String
  pub name : String
  pub action_type : String
  pub estimated_cost_usd : Usd
  pub eligible_tiers : List String
  pub max_frequency_days : ℕ
  pub risk_tier : Risk

-- The balances are signed: `model_copy` does not validate what it updates.
pub record BudgetLedgerEntry : Type 0 where
  pub tenant_id : String
  pub ledger_date : String
  pub total_allocated_usd : ℤ
  pub committed_expenditure_usd : ℤ
  pub remaining_balance_usd : ℤ
  pub version : ℕ

pub record ConstraintEvaluatorRequest : Type 0 where
  pub tenant_id : String
  pub customer_id : String
  pub customer_tier : String
  pub intervention : CandidateIntervention
  pub current_time : UtcDateTime
  pub budget_ledger : BudgetLedgerEntry
  pub active_capacity_count : ℕ
  pub max_capacity_limit : ℕ
  pub customer_history_timestamps : List UtcDateTime
  pub quarterly_history_timestamps : List UtcDateTime
  pub max_quarterly_frequency : ℕ
  pub customer_opt_out : Bool
  pub is_excluded : Bool
  pub incident_treated_count : ℕ
  pub max_blast_radius : ℕ
  pub feature_timestamp : UtcDateTime
  pub max_feature_staleness_hours : ℕ

pub record ConstraintEvaluationOutcome : Type 0 where
  pub is_eligible : Bool
  pub passed_constraints : List String
  pub violated_constraints : List String
  pub evaluated_at : UtcDateTime

-- `text in texts`
abbrev pub is_one_of : String → List String → Bool
is_one_of a [] = false
is_one_of a (b ∷ bs) = if str_eq a b then true else is_one_of a bs

-- `0.0 <= elapsed < cooldown_seconds`
abbrev pub is_within : ℕ → UtcDateTime → UtcDateTime → Bool
is_within cooldown_days now prev_time =
    leb prev_time now && ltb now (prev_time + days cooldown_days)

unfoldable pub is_in_cooldown : ℕ → UtcDateTime → List UtcDateTime → Bool
is_in_cooldown cooldown_days now [] = false
is_in_cooldown cooldown_days now (prev_time ∷ rest) =
    if is_within cooldown_days now prev_time then true else is_in_cooldown cooldown_days now rest

-- One check: whether it is violated, and what each outcome appends.
pub record Check : Type 0 where
  pub is_violated : Bool
  pub violation : String
  pub passing : String

-- The two lists that the function appends to.
pub record Audit : Type 0 where
  pub passed : List String
  pub violated : List String

abbrev pub append_check : Check → Audit → Audit
append_check c a =
    if c.is_violated
    then record a { violated = a.violated ++ c.violation ∷ [] }
    else record a { passed = a.passed ++ c.passing ∷ [] }

abbrev pub run_checks : List Check → Audit → Audit
run_checks [] a = a
run_checks (c ∷ cs) a = run_checks cs (append_check c a)

abbrev pub check_of : Bool → String → String → Check
check_of b violation passing = record { is_violated = b; violation = violation; passing = passing }

unfoldable pub hard_checks : ConstraintEvaluatorRequest → List Check
hard_checks r =
    check_of (not (str_eq r.tenant_id r.budget_ledger.tenant_id)) "ERR_TENANT_MISMATCH"
      "TENANT_SCOPE_VALID"
    ∷ check_of (not (is_one_of r.customer_tier r.intervention.eligible_tiers)) "ERR_TIER_INELIGIBLE"
        "TIER_ELIGIBILITY_VALID"
    ∷ check_of (ltb_ℤ r.budget_ledger.remaining_balance_usd (pos r.intervention.estimated_cost_usd))
        "ERR_BUDGET_EXCEEDED" "BUDGET_REMAINING_VALID"
    ∷ check_of (leb r.max_capacity_limit r.active_capacity_count) "ERR_CAPACITY_EXCEEDED"
        "CAPACITY_AVAILABLE_VALID"
    ∷ check_of
        (is_in_cooldown r.intervention.max_frequency_days r.current_time
          r.customer_history_timestamps)
        "ERR_COOLDOWN_ACTIVE" "COOLDOWN_PASSED"
    ∷ check_of (leb r.max_quarterly_frequency (length r.quarterly_history_timestamps))
        "ERR_FREQUENCY_CAP_EXCEEDED" "FREQUENCY_CAP_PASSED"
    ∷ check_of r.customer_opt_out "ERR_CUSTOMER_OPTED_OUT" "CUSTOMER_CONSENT_PASSED"
    ∷ check_of r.is_excluded "ERR_CUSTOMER_EXCLUDED" "EXCLUSION_LIST_PASSED"
    ∷ check_of (leb r.max_blast_radius r.incident_treated_count) "ERR_BLAST_RADIUS_EXCEEDED"
        "BLAST_RADIUS_PASSED"
    ∷ check_of (ltb (r.feature_timestamp + hours r.max_feature_staleness_hours) r.current_time)
        "ERR_STALE_FEATURES" "DATA_FRESHNESS_PASSED"
    ∷ []

abbrev pub is_empty : List String → Bool
is_empty [] = true
is_empty (x ∷ xs) = false

unfoldable pub evaluate_hard_constraints : ConstraintEvaluatorRequest → ConstraintEvaluationOutcome
evaluate_hard_constraints request =
    let a = run_checks (hard_checks request) (record { passed = []; violated = [] }) in
    record {
      is_eligible = is_empty a.violated;
      passed_constraints = a.passed;
      violated_constraints = a.violated;
      evaluated_at = request.current_time;
    }

pub record Split : Type 0 where
  pub eligible : List CandidateIntervention
  pub ineligible_reasons : Dict (List String)

-- One turn of the loop.
abbrev pub sort_request : ConstraintEvaluatorRequest → Split → Split
sort_request req acc =
    let outcome = evaluate_hard_constraints req in
    if outcome.is_eligible
    then record acc { eligible = acc.eligible ++ req.intervention ∷ [] }
    else record acc {
      ineligible_reasons =
          insert req.intervention.candidate_id outcome.violated_constraints acc.ineligible_reasons;
    }

abbrev pub sort_requests : List ConstraintEvaluatorRequest → Split → Split
sort_requests [] acc = acc
sort_requests (req ∷ requests) acc = sort_requests requests (sort_request req acc)

unfoldable pub filter_eligible_candidates : List ConstraintEvaluatorRequest → Split
filter_eligible_candidates requests =
    sort_requests requests (record { eligible = []; ineligible_reasons = [] })
