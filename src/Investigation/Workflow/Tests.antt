-- ===== src/Investigation/Workflow/Tests.antt =====
-- A paused workflow at a gate, and an investigation that verifies its first evidence.
use rev_pilot_ai.Base.{is_blank, ◌≡◌, ◌≢◌, refl, ok, some, true, List, [], ◌∷◌, arith}
use rev_pilot_ai.Base.Int.{pos}
use rev_pilot_ai.Investigation.{gathering_evidence, paused}
use rev_pilot_ai.Investigation.Workflow.{
  Event, signals, returns, resume_investigation, Reply, Verdict, InvestigationManifest,
  WorkflowState, check_pause_and_cancellation,
}
use rev_pilot_ai.Investigation.Workflow.Gate.{check_pause_and_cancellation-never}
use rev_pilot_ai.Investigation.Workflow.Sealing.{IsSealed, run-IsSealed}
use rev_pilot_ai.Investigation.Workflow.Limits.{IsWithin}
use rev_pilot_ai.Investigation.Workflow.Spent.{guarded-IsWithin}
use rev_pilot_ai.Investigation.Workflow.Completion.{Round, Completes, events_of, run-Completes}
use rev_pilot_ai.Investigation.Workflow.Run.{
  InvestigationWorkflowInput, absent, run, new_workflow, validate, guarded, investigate,
}

abbrev paused_workflow : WorkflowState
paused_workflow = record (new_workflow (signals (resume_investigation "ops") ∷ [])) {
  status = paused;
  prior_active_state = some gathering_evidence;
  is_paused = true;
}

check_pause_and_cancellation-never_example :
    (check_pause_and_cancellation paused_workflow).0 ≢ ok tt
check_pause_and_cancellation-never_example =
    check_pause_and_cancellation-never paused_workflow refl (λ at unknown. absurd (cc))

abbrev manifest : InvestigationManifest
manifest = record {
  investigation_id = "inv_1";
  tenant_id = "ten_1";
  top_hypothesis_id = some "hyp_1";
  bundle_digest = "b7e1";
  cogs_usd = pos 850000;
  duration_seconds = 42;
  sealed_at = 1000;
}

abbrev reply : Reply
reply = record {
  digest = "d0";
  verdict = Verdict.verified;
  top_hypothesis_id = some "hyp_1";
  manifest = manifest;
}

abbrev round : Round
round = record {
  sql = reply;
  retrieval = reply;
  tickets = reply;
  synthesis = reply;
  verdict = reply;
}

abbrev input : InvestigationWorkflowInput
input = record {
  investigation_id = "inv_1";
  tenant_id = "ten_1";
  principal_id = "usr_1";
  window_start = absent;
  window_end = absent;
  as_of_time = absent;
  cost_budget_usd = pos 2000000;
  tool_call_budget = 20;
}

abbrev history : List Event
history = returns reply ∷ returns reply ∷ events_of round (returns reply ∷ [])

input-accepted : validate input "" ≡ ok tt
unfolding validate is_blank
input-accepted = refl

run-Completes_example : Completes manifest round (run input "" (new_workflow history))
run-Completes_example = run-Completes input "" reply reply reply round input-accepted refl

returned : (run input "" (new_workflow history)).0 ≡ ok manifest
returned = (run-Completes input "" reply reply reply round input-accepted refl).0

run-IsSealed_example : IsSealed manifest (run input "" (new_workflow history)).1
run-IsSealed_example = run-IsSealed input "" (new_workflow history) manifest returned

-- Four cents are left, less than the first activity costs.
abbrev nearly_spent : WorkflowState
nearly_spent =
    let w = new_workflow history in
    record w { budget = record w.budget { spent_usd = pos 4960000; hard_stop_usd = pos 5000000 } }

guarded-IsWithin_example : IsWithin (guarded investigate nearly_spent).1
guarded-IsWithin_example = guarded-IsWithin nearly_spent (omega arith)
