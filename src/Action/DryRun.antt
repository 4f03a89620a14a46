-- ===== src/Action/DryRun.antt =====
-- action/dryrun.py, and its result in action/domain.py. A payload is a dict of texts; the fixed texts on
-- the provider are left out.
use rev_pilot_ai.Base.{
  length, ℕ, String, Bool, true, List, [], ◌∷◌, if◌then◌else◌, is_prefix, codes,
}
use rev_pilot_ai.Base.Int.{ℤ}
use rev_pilot_ai.Base.Time.{UtcDateTime}
use rev_pilot_ai.Base.Dict.{Dict}
use rev_pilot_ai.Action.Domain.{ActionIntentRecord}

pub record DryRunSimulationResult : Type 0 where
  pub intent_id : String
  pub action_type : String
  pub is_dry_run : Bool
  pub affected_customer_count : ℕ
  pub target_references : List String
  pub payload_summary : Dict String
  pub simulated_cost_usd : ℤ
  pub simulated_blast_radius : ℕ
  pub zero_side_effect_verified : Bool
  pub simulated_at : UtcDateTime

-- `{k: v for k, v in payload.items() if not k.startswith("_")}`
abbrev pub summary_of : Dict String → Dict String
summary_of [] = []
summary_of ((k, v) ∷ payload) =
    let rest = summary_of payload in if is_prefix (codes "_") (codes k) then rest else (k, v) ∷ rest

unfoldable pub simulate :
    ActionIntentRecord → Dict String → ℤ → List String → UtcDateTime → DryRunSimulationResult
simulate intent payload cost_usd targets now = record {
  intent_id = intent.intent_id;
  action_type = intent.action_type;
  is_dry_run = true;
  affected_customer_count = length targets;
  target_references = targets;
  payload_summary = summary_of payload;
  simulated_cost_usd = cost_usd;
  simulated_blast_radius = length targets;
  zero_side_effect_verified = true;
  simulated_at = now;
}
