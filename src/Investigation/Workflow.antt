-- ===== src/Investigation/Workflow.antt =====
-- investigation/workflows/investigation_workflow.py: the state, the signals, the gate and one activity.
-- The events that reach the workflow stand in a list: signals, and how each activity ends. A wait takes
-- events until its condition holds; where none is left, the workflow waits on.
pub mod Run
pub mod Gate
pub mod Sealing
pub mod Limits
pub mod Spent
pub mod Completion
mod Tests
use rev_pilot_ai.Base.{
  ℕ, ◌+◌, String, Bool, true, false, not, ◌&&◌, ◌||◌, Option, none, some, List, [], ◌∷◌, Result, ok,
  err, Action, pure, raise, raise_if, modify, gets, ◌>>=◌, ◌>>◌, if◌then◌else◌,
}
use rev_pilot_ai.Base.Int.{ℤ, pos}
use rev_pilot_ai.Base.Money.{Usd}
use rev_pilot_ai.Base.Time.{UtcDateTime}
use rev_pilot_ai.Investigation.{
  InvestigationStatus, planning, completed, paused, cancelled, failed, is_in, same_status,
  transition_investigation_state, BudgetState, record_spend,
}

pub data Signal : Type 0 where
  pause_investigation : String → String → Signal
  resume_investigation : String → Signal
  cancel_investigation : String → String → Signal

-- `verify_result.status`
pub data Verdict : Type 0 where
  verified need_more_evidence refuted : Verdict

pub record InvestigationManifest : Type 0 where
  pub investigation_id : String
  pub tenant_id : String
  pub top_hypothesis_id : Option String
  pub bundle_digest : String
  pub cogs_usd : ℤ
  pub duration_seconds : ℕ
  pub sealed_at : UtcDateTime

-- What the workflow reads of an activity's result: a digest, a verdict with its hypothesis, or the
-- manifest; each activity fills its own part.
pub record Reply : Type 0 where
  pub digest : String
  pub verdict : Verdict
  pub top_hypothesis_id : Option String
  pub manifest : InvestigationManifest

pub data Event : Type 0 where
  signals : Signal → Event
  returns : Reply → Event
  fails : Event

-- An `ApplicationError` by its type.
pub data Failure : Type 0 where
  tenant_violation invalid_input invalid_state_transition workflow_cancelled : Failure
  verification_refuted workflow_execution_failure : Failure

-- Why a step does not return: an `ApplicationError`, another exception, or no event is left.
pub data Stop : Type 0 where
  application_error : Failure → Stop
  exception : Stop
  waiting : Stop

-- The fields of `InvestigationWorkflow`, and the events to come.
pub record WorkflowState : Type 0 where
  pub status : InvestigationStatus
  pub prior_active_state : Option InvestigationStatus
  pub budget : BudgetState
  pub is_paused : Bool
  pub is_cancelled : Bool
  pub pause_reason : Option String
  pub paused_by : Option String
  pub cancel_reason : Option String
  pub cancelled_by : Option String
  pub error_code : Option Failure
  pub current_step : String
  pub completed_tasks : ℕ
  pub running_tasks : ℕ
  pub manifest : Option InvestigationManifest
  pub evidence_digests : List String  -- the local variable of `run`
  pub history : List Event

abbrev pub Step : Type 0 → Type 0
Step A = Action WorkflowState Stop A

-- `status in (COMPLETED, FAILED, CANCELLED)`
abbrev pub is_closed : InvestigationStatus → Bool
is_closed status = is_in status (completed ∷ failed ∷ cancelled ∷ [])

abbrev pub pause_now : String → String → WorkflowState → WorkflowState
pause_now reason by w =
    let held = record w { is_paused = true; pause_reason = some reason; paused_by = some by } in
    if same_status w.status paused
    then held
    else record held { prior_active_state = some w.status; status = paused }

abbrev pub resume_now : WorkflowState → WorkflowState
resume_now w = record w {
  is_paused = false;
  status = elim w.prior_active_state [ none ↦ planning | some s ↦ s ];
}

abbrev pub cancel_now : String → String → WorkflowState → WorkflowState
cancel_now reason by w = record w {
  is_cancelled = true;
  cancel_reason = some reason;
  cancelled_by = some by;
  status = cancelled;
}

-- The three signal handlers.
unfoldable pub on_signal : Signal → WorkflowState → WorkflowState
on_signal (pause_investigation reason by) w =
    if is_closed w.status then w else pause_now reason by w
on_signal (resume_investigation by) w = if same_status w.status paused then resume_now w else w
on_signal (cancel_investigation reason by) w =
    if is_closed w.status then w else cancel_now reason by w

-- `_transition`
unfoldable pub change_status : InvestigationStatus → Step (Unit {0})
change_status target w =
    elim (transition_investigation_state w.status target w.prior_active_state) [
      | ok s ↦ (ok tt, record w { status = s })
      | err e ↦ (err (application_error invalid_state_transition), w)
    ]

-- An event that arrives while no activity runs.
abbrev pub deliver : Event → WorkflowState → WorkflowState
deliver (signals x) w = on_signal x w
deliver (returns r) w = w
deliver fails w = w

-- `workflow.wait_condition(lambda: not self._is_paused or self._is_cancelled)`
abbrev pub may_go : WorkflowState → Bool
may_go w = not w.is_paused || w.is_cancelled

unfoldable pub wait_from : List Event → Step (Unit {0})
wait_from [] w =
    if may_go w
    then (ok tt, record w { history = [] })
    else (err waiting, record w { history = [] })
wait_from (e ∷ es) w =
    let rest = wait_from es (deliver e w) in
    if may_go w then (ok tt, record w { history = e ∷ es }) else rest

abbrev pub wait_condition : Step (Unit {0})
wait_condition w = wait_from w.history w

-- Signals are handled while an activity runs, until it ends.
unfoldable pub await_from : List Event → Step Reply
await_from [] w = (err waiting, record w { history = [] })
await_from (signals x ∷ es) w = await_from es (on_signal x w)
await_from (returns r ∷ es) w = (ok r, record w { history = es })
await_from (fails ∷ es) w = (err exception, record w { history = es })

abbrev pub unless_status : InvestigationStatus → Step (Unit {0}) → Step (Unit {0})
unless_status s m w = if same_status w.status s then (ok tt, w) else m w

-- The end of a wait at the gate.
unfoldable pub after_wait : Step (Unit {0})
after_wait w =
    if w.is_cancelled
    then (change_status cancelled >> raise (application_error workflow_cancelled)) w
    else elim w.prior_active_state [ none ↦ (ok tt, w) | some s ↦ change_status s w ]

abbrev pub remember_state : WorkflowState → WorkflowState
remember_state w = record w { prior_active_state = some w.status }

-- `_check_pause_and_cancellation`
unfoldable pub check_pause_and_cancellation : Step (Unit {0})
check_pause_and_cancellation w =
    if w.is_cancelled
    then (unless_status cancelled (change_status cancelled)
          >> raise (application_error workflow_cancelled))
        w
    else if w.is_paused
    then (unless_status paused (modify remember_state >> change_status paused)
          >> (wait_condition >> after_wait))
        w
    else (ok tt, w)

abbrev pub set_running : ℕ → WorkflowState → WorkflowState
set_running n w = record w { running_tasks = n }

abbrev pub end_task : WorkflowState → WorkflowState
end_task w = record w { completed_tasks = w.completed_tasks + 1; running_tasks = 0 }

-- `workflow.execute_activity(…)`, with the counters around it
unfoldable pub execute_activity : Step Reply
execute_activity = do
  modify (set_running 1)
  r ← λ w. await_from w.history w
  modify end_task
  pure r

-- `self._budget.record_spend(usd=…, tool_calls=1)`, whose exception is not an `ApplicationError`
unfoldable pub spend : Usd → Step (Unit {0})
spend usd w =
    let (r, b) = record_spend (pos usd) 0 1 w.budget in
    elim r [
      | ok u ↦ (ok tt, record w { budget = b })
      | err e ↦ (err exception, record w { budget = b })
    ]
