-- ===== src/Investigation/Workflow/Limits.antt =====
-- `run` of investigation/workflows/investigation_workflow.py: its budget.
use rev_pilot_ai.Base.{
  if◌then◌else◌, String, List, [], ◌∷◌, ok, pure, modify, inl, inr, arith, ◌>>◌, raise, subst,
  Keeps, Keeps-bind, Keeps-modify, Keeps-pure, Keeps-raise, Keeps-choose, Option-cases, sym,
}
use rev_pilot_ai.Base.Int.{◌≤ℤ◌}
use rev_pilot_ai.Base.Money.{Usd}
use rev_pilot_ai.Investigation.{InvestigationStatus, paused, cancelled, same_status, record_spend}
use rev_pilot_ai.Investigation.Workflow.{
  Reply, Event, signals, returns, fails, Signal, pause_investigation, resume_investigation,
  cancel_investigation, WorkflowState, Step, on_signal, deliver, change_status, wait_from,
  after_wait, check_pause_and_cancellation, execute_activity, spend, Stop, application_error,
  await_from, unless_status, remember_state, set_running, end_task, wait_condition,
  workflow_cancelled,
}
use rev_pilot_ai.Investigation.Workflow.Gate.{change_status_cases}
use rev_pilot_ai.Investigation.Workflow.Run.{gated_activity, set_step}

-- The spend is at most the hard stop.
abbrev pub IsWithin : WorkflowState → Type 0
IsWithin w = w.budget.spent_usd ≤ℤ w.budget.hard_stop_usd

on_signal-IsWithin : (x : Signal) (w : WorkflowState) → IsWithin w → IsWithin (on_signal x w)
unfolding on_signal
on_signal-IsWithin (pause_investigation r b) w h = ground arith
on_signal-IsWithin (resume_investigation b) w h = ground arith
on_signal-IsWithin (cancel_investigation r b) w h = ground arith

deliver-IsWithin : (e : Event) (w : WorkflowState) → IsWithin w → IsWithin (deliver e w)
deliver-IsWithin (signals x) w h = on_signal-IsWithin x w h
deliver-IsWithin (returns r) w h = h
deliver-IsWithin fails w h = h

wait_from-IsWithin : (es : List Event) → Keeps IsWithin (wait_from es)
unfolding wait_from Keeps
wait_from-IsWithin [] w h = ground arith
wait_from-IsWithin (e ∷ es) w h =
    let rest = wait_from-IsWithin es (deliver e w) (deliver-IsWithin e w h) in ground arith

wait_condition-IsWithin : Keeps IsWithin wait_condition
unfolding Keeps
wait_condition-IsWithin w h = wait_from-IsWithin w.history w h

await_from-IsWithin : (es : List Event) → Keeps IsWithin (await_from es)
unfolding await_from Keeps
await_from-IsWithin [] w h = h
await_from-IsWithin (signals x ∷ es) w h =
    await_from-IsWithin es (on_signal x w) (on_signal-IsWithin x w h)
await_from-IsWithin (returns r ∷ es) w h = h
await_from-IsWithin (fails ∷ es) w h = h

next-IsWithin : Keeps IsWithin (λ w. await_from w.history w)
unfolding Keeps
next-IsWithin w h = await_from-IsWithin w.history w h

pub change_status-IsWithin : (t : InvestigationStatus) → Keeps IsWithin (change_status t)
unfolding Keeps
change_status-IsWithin t w h = elim (change_status_cases t w) [
  | inl e ↦ subst (λ o. IsWithin o.1) (sym e) h
  | inr e ↦ subst (λ o. IsWithin o.1) (sym e) h
]

skip-IsWithin : Keeps IsWithin (pure {E = Stop} tt)
skip-IsWithin = Keeps-pure IsWithin Stop tt

pub set_step-IsWithin : (name : String) → Keeps IsWithin (modify {E = Stop} (set_step name))
set_step-IsWithin name = Keeps-modify IsWithin Stop (set_step name) (λ w h. h)

-- The status changes, and the call raises.
pub change_and_raise-IsWithin :
    (A : Type 0) (m : Step (Unit {0})) (e : Stop)
    → Keeps IsWithin m
    → Keeps IsWithin (m >> raise {A = A} e)
change_and_raise-IsWithin A m e kept =
    Keeps-bind IsWithin m _ kept (λ _. Keeps-raise IsWithin Stop A e)

unless_status-IsWithin :
    (s : InvestigationStatus) (m : Step (Unit {0}))
    → Keeps IsWithin m
    → Keeps IsWithin (unless_status s m)
unless_status-IsWithin s m kept =
    Keeps-choose IsWithin Stop (λ w. same_status w.status s) (pure tt) m skip-IsWithin kept

after_wait-IsWithin : Keeps IsWithin after_wait
unfolding Keeps after_wait
after_wait-IsWithin w h =
    let cancel =
      change_and_raise-IsWithin (Unit {0}) (change_status cancelled)
        (application_error workflow_cancelled) (change_status-IsWithin cancelled) w h in
    elim (Option-cases w.prior_active_state) [
      | inl e ↦ ground arith
      | inr (s, e) ↦ let kept = change_status-IsWithin s w h in ground arith
    ]

pub check-IsWithin : Keeps IsWithin check_pause_and_cancellation
unfolding check_pause_and_cancellation
check-IsWithin =
    Keeps-choose IsWithin Stop (λ w. w.is_cancelled)
      (unless_status cancelled (change_status cancelled)
        >> raise (application_error workflow_cancelled))
      (λ w.
        if w.is_paused
        then (unless_status paused (modify remember_state >> change_status paused)
              >> (wait_condition >> after_wait))
            w
        else (ok tt, w))
      (change_and_raise-IsWithin (Unit {0}) _ _
        (unless_status-IsWithin cancelled _ (change_status-IsWithin cancelled)))
      (Keeps-choose IsWithin Stop (λ w. w.is_paused) _ (pure tt)
        (Keeps-bind IsWithin (unless_status paused (modify remember_state >> change_status paused))
          _
          (unless_status-IsWithin paused _ (
            Keeps-bind IsWithin (modify remember_state) _
              (Keeps-modify IsWithin Stop remember_state (λ w h. h))
              (λ _. change_status-IsWithin paused)))
          (λ _.
            Keeps-bind IsWithin wait_condition _ wait_condition-IsWithin
              (λ _. after_wait-IsWithin)))
        skip-IsWithin)

pub execute_activity-IsWithin : Keeps IsWithin execute_activity
unfolding execute_activity
execute_activity-IsWithin =
    Keeps-bind IsWithin (modify (set_running 1)) _
      (Keeps-modify IsWithin Stop (set_running 1) (λ w h. h))
      (λ _.
        Keeps-bind IsWithin (λ w. await_from w.history w) _ next-IsWithin
          (λ r.
            Keeps-bind IsWithin (modify end_task) _ (Keeps-modify IsWithin Stop end_task (λ w h. h))
              (λ _. Keeps-pure IsWithin Stop r)))

pub spend-IsWithin : (usd : Usd) → Keeps IsWithin (spend usd)
unfolding Keeps spend record_spend
spend-IsWithin usd w h = ground arith

pub gated_activity-IsWithin :
    (cost : Usd) (note : Reply → WorkflowState → WorkflowState)
    → ((r : Reply) (w : WorkflowState) → IsWithin w → IsWithin (note r w))
    → Keeps IsWithin (gated_activity cost note)
unfolding gated_activity
gated_activity-IsWithin cost note kept =
    Keeps-bind IsWithin check_pause_and_cancellation _ check-IsWithin (λ _.
      Keeps-bind IsWithin execute_activity _ execute_activity-IsWithin (λ r.
        Keeps-bind IsWithin (modify (note r)) _ (Keeps-modify IsWithin Stop (note r) (kept r)) (λ _.
          Keeps-bind IsWithin (spend cost) _ (spend-IsWithin cost)
            (λ _. Keeps-pure IsWithin Stop r))))
