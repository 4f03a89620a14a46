-- ===== src/Investigation/Workflow/Run.antt =====
-- `run` of investigation/workflows/investigation_workflow.py, and the validation of its input in
-- investigation/workflows/signals.py. A time of the input is absent, malformed or an instant.
use rev_pilot_ai.Base.{
  ℕ, zero, suc, String, Bool, true, false, not, ◌&&◌, ◌||◌, Option, none, some, List, [], ◌∷◌, ◌++◌,
  Result, ok, err, pure, raise, modify, ◌>>=◌, ◌>>◌, if◌then◌else◌, is_blank, str_eq, prefixed, ltb,
  leb, ◌*◌,
}
use rev_pilot_ai.Base.Int.{ℤ, pos, ltb_ℤ}
use rev_pilot_ai.Base.Money.{Usd, dollars}
use rev_pilot_ai.Base.Time.{UtcDateTime}
use rev_pilot_ai.Investigation
use rev_pilot_ai.Investigation.{
  InvestigationStatus, initializing, planning, gathering_evidence, verifying, completed, cancelled,
  failed, is_in, same_status, BudgetState,
}
use rev_pilot_ai.Investigation.Workflow.{
  InvestigationManifest, Reply, Event, Verdict, verified, need_more_evidence, refuted, Failure,
  tenant_violation, invalid_input, verification_refuted, workflow_execution_failure,
  application_error, exception, waiting, WorkflowState, Step, change_status,
  check_pause_and_cancellation, execute_activity, spend, is_closed, Stop,
}

pub data TimeText : Type 0 where
  absent malformed : TimeText
  at : UtcDateTime → TimeText

-- `InvestigationWorkflowInput`, as far as `run` reads it
pub record InvestigationWorkflowInput : Type 0 where
  pub investigation_id : String
  pub tenant_id : String
  pub principal_id : String
  pub window_start : TimeText
  pub window_end : TimeText
  pub as_of_time : TimeText
  pub cost_budget_usd : ℤ
  pub tool_call_budget : ℕ

-- f"tenant/{tenant}/investigation/{investigation}"
abbrev pub canonical_id : InvestigationWorkflowInput → String
canonical_id i =
    prefixed "tenant/" (prefixed i.tenant_id (prefixed "/investigation/" i.investigation_id))

-- `window_start < window_end <= as_of_time`, where they are given
abbrev pub check_as_of : UtcDateTime → TimeText → Bool
check_as_of we absent = true
check_as_of we malformed = false
check_as_of we (at asof) = leb we asof

abbrev pub check_window : TimeText → TimeText → TimeText → Bool
check_window absent _ _ = true
check_window (at ws) absent _ = true
check_window malformed absent _ = true
check_window (at ws) (at we) asof = ltb ws we && check_as_of we asof
check_window _ _ _ = false

-- `validate`, by the error code that `run` gives to its exception
unfoldable pub validate : InvestigationWorkflowInput → String → Result Failure (Unit {0})
validate i workflow_id =
    if is_blank i.tenant_id
    then err tenant_violation
    else if is_blank i.investigation_id || is_blank i.principal_id
    then err invalid_input
    else if not (str_eq workflow_id "") && not (str_eq workflow_id (canonical_id i))
    then err tenant_violation
    else if ltb_ℤ (pos (dollars 5)) i.cost_budget_usd || ltb_ℤ i.cost_budget_usd (pos 0)
    then err invalid_input
    else if check_window i.window_start i.window_end i.as_of_time
    then ok tt
    else err invalid_input

-- `BudgetState(allocated_usd=…, allocated_tool_calls=…)`
abbrev pub new_budget : ℤ → ℕ → BudgetState
new_budget allocated tool_calls = record {
  allocated_usd = allocated;
  spent_usd = pos 0;
  hard_stop_usd = pos (dollars 5);
  allocated_tokens = 100000;
  spent_tokens = 0;
  allocated_tool_calls = tool_calls;
  spent_tool_calls = 0;
}

-- `__init__`
abbrev pub new_workflow : List Event → WorkflowState
new_workflow history = record {
  status = initializing;
  prior_active_state = none;
  budget = new_budget (pos (dollars 2)) 20;
  is_paused = false;
  is_cancelled = false;
  pause_reason = none;
  paused_by = none;
  cancel_reason = none;
  cancelled_by = none;
  error_code = none;
  current_step = "INITIALIZING";
  completed_tasks = 0;
  running_tasks = 0;
  manifest = none;
  evidence_digests = [];
  history = history;
}

abbrev pub set_step : String → WorkflowState → WorkflowState
set_step name w = record w { current_step = name }

abbrev pub set_error : Failure → WorkflowState → WorkflowState
set_error e w = record w { error_code = some e }

abbrev pub add_digest : Reply → WorkflowState → WorkflowState
add_digest r w = record w { evidence_digests = w.evidence_digests ++ r.digest ∷ [] }

abbrev pub cents : ℕ → Usd
cents n = n * 10000

-- One activity that costs, after the gate; `note` keeps what is needed of its result.
unfoldable pub gated_activity : Usd → (Reply → WorkflowState → WorkflowState) → Step Reply
gated_activity cost note = do
  check_pause_and_cancellation
  r ← execute_activity
  modify (note r)
  spend cost
  pure r

abbrev pub note_nothing : Reply → WorkflowState → WorkflowState
note_nothing r w = w

-- The four activities that gather evidence, and the gate behind them.
unfoldable pub gather_evidence : String → Step (Unit {0})
gather_evidence name = do
  change_status gathering_evidence
  modify (set_step name)
  sql ← gated_activity (cents 10) add_digest
  retrieval ← gated_activity (cents 15) add_digest
  tickets ← gated_activity (cents 10) note_nothing
  synthesis ← gated_activity (cents 25) note_nothing
  check_pause_and_cancellation

unfoldable pub verify_evidence : Step Reply
verify_evidence = do
  change_status verifying
  modify (set_step "VERIFYING_HYPOTHESES")
  execute_activity

-- The last round that finds too little ends the loop; an earlier one goes back to gathering.
abbrev pub on_verdict : Verdict → Option String → ℕ → Step (Option String) → Step (Option String)
on_verdict verified top rounds again = pure top
on_verdict need_more_evidence top zero again = do
  change_status Investigation.need_more_evidence
  pure top
on_verdict need_more_evidence top (suc rounds) again = again
on_verdict refuted top rounds again = do
  change_status failed
  modify (set_error verification_refuted)
  raise (application_error verification_refuted)

-- `while loop_count < 2 and not verified`, with the rounds left after this one, of which there are
-- at most one
unfoldable pub evidence_loop : ℕ → Step (Option String)
evidence_loop zero = do
  gather_evidence "GATHERING_EVIDENCE_LOOP_2"
  r ← verify_evidence
  on_verdict r.verdict r.top_hypothesis_id 0 (pure none)
evidence_loop (suc rounds) = do
  gather_evidence "GATHERING_EVIDENCE_LOOP_1"
  r ← verify_evidence
  on_verdict r.verdict r.top_hypothesis_id (suc rounds) (evidence_loop rounds)

abbrev pub set_manifest : InvestigationManifest → WorkflowState → WorkflowState
set_manifest m w = record w { manifest = some m }

abbrev pub finish_status : Step (Unit {0})
finish_status w =
    if same_status w.status Investigation.need_more_evidence
    then (ok tt, w)
    else change_status completed w

unfoldable pub package_evidence : Step InvestigationManifest
package_evidence = do
  modify (set_step "PACKAGING_EVIDENCE")
  r ← execute_activity
  modify (set_manifest r.manifest)
  finish_status
  modify (set_step "SEALED")
  pure r.manifest

-- The body of the `try`.
unfoldable pub investigate : Step InvestigationManifest
investigate = do
  scope ← execute_activity
  spend (cents 5)
  check_pause_and_cancellation
  modify (set_step "GENERATING_PLAN")
  plan ← execute_activity
  spend (cents 20)
  check_pause_and_cancellation
  top ← evidence_loop 1
  check_pause_and_cancellation
  package_evidence

-- FAILED through `_transition` where it allows it, and by assignment where it does not
abbrev pub force_failed : WorkflowState → WorkflowState
force_failed w = if is_closed w.status then w else record w { status = failed }

-- `except ApplicationError: raise`, `except Exception: …`
unfoldable pub rescue : {A : Type 0} → Result Stop A → Step A
rescue (ok a) w = (ok a, w)
rescue (err (application_error e)) w = (err (application_error e), w)
rescue (err exception) w = (
  err (application_error workflow_execution_failure),
  set_error workflow_execution_failure (force_failed w),
)
rescue (err waiting) w = (err waiting, w)

abbrev pub guarded : {A : Type 0} → Step A → Step A
guarded m w = rescue (m w).0 (m w).1

abbrev pub begin : InvestigationWorkflowInput → WorkflowState → WorkflowState
begin i w = record w { budget = new_budget i.cost_budget_usd i.tool_call_budget }

abbrev pub admit : Result Failure (Unit {0}) → Step (Unit {0})
admit (ok u) = pure tt
admit (err e) = do modify (set_error e); change_status failed; raise (application_error e)

unfoldable pub run : InvestigationWorkflowInput → String → Step InvestigationManifest
run i workflow_id = do
  modify (begin i)
  admit (validate i workflow_id)
  check_pause_and_cancellation
  change_status planning
  modify (set_step "VALIDATING_SCOPE")
  guarded investigate
