-- ===== src/Constraints/Tests.antt =====
-- One request that meets every constraint and one that does not, and a ledger that is drawn on.
use rev_pilot_ai.Base.{◌≡◌, ◌↔◌, true, false, List, [], ◌∷◌, arith}
use rev_pilot_ai.Base.Int.{pos}
use rev_pilot_ai.Constraints.{
  CandidateIntervention, ConstraintEvaluatorRequest, low, evaluate_hard_constraints,
}
use rev_pilot_ai.Constraints.Eligibility.{IsAdmissible, evaluate_hard_constraints_iff}
use rev_pilot_ai.Constraints.Budget.{
  Ledgers, AllSolvent, init_ledger, reserve_budget, init_ledger-AllSolvent, empty-AllSolvent,
  reserve_budget-AllSolvent,
}

abbrev coupon : CandidateIntervention
coupon = record {
  candidate_id = "c1";
  name = "coupon";
  action_type = "email_offer";
  estimated_cost_usd = 5000000;
  eligible_tiers = "gold" ∷ [];
  max_frequency_days = 7;
  risk_tier = low;
}

abbrev fit : ConstraintEvaluatorRequest
fit = record {
  tenant_id = "t1";
  customer_id = "u1";
  customer_tier = "gold";
  intervention = coupon;
  current_time = 900000000000;
  budget_ledger = record {
    tenant_id = "t1";
    ledger_date = "2026-01-01";
    total_allocated_usd = pos 9000000;
    committed_expenditure_usd = pos 0;
    remaining_balance_usd = pos 9000000;
    version = 1;
  };
  active_capacity_count = 0;
  max_capacity_limit = 10;
  customer_history_timestamps = [];
  quarterly_history_timestamps = [];
  max_quarterly_frequency = 3;
  customer_opt_out = false;
  is_excluded = false;
  incident_treated_count = 0;
  max_blast_radius = 500;
  feature_timestamp = 900000000000;
  max_feature_staleness_hours = 24;
}

abbrev opted_out : ConstraintEvaluatorRequest
opted_out = record fit { customer_opt_out = true }

evaluate_hard_constraints_iff_example :
    ((evaluate_hard_constraints fit).is_eligible ≡ true) ↔ IsAdmissible fit
evaluate_hard_constraints_iff_example = evaluate_hard_constraints_iff fit

abbrev requests : List ConstraintEvaluatorRequest
requests = fit ∷ opted_out ∷ []

abbrev january : Ledgers
january = init_ledger "t1" "2026-01-01" 9000000 []

january-AllSolvent : AllSolvent january
january-AllSolvent = init_ledger-AllSolvent "t1" "2026-01-01" 9000000 [] empty-AllSolvent

drawn-AllSolvent : AllSolvent (reserve_budget "t1" "2026-01-01" (pos 5000000) january).1
drawn-AllSolvent =
    reserve_budget-AllSolvent "t1" "2026-01-01" (pos 5000000) january (omega arith)
      january-AllSolvent
