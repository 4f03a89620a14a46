-- ===== src/Investigation/Workflow/Gate.antt =====
-- `_check_pause_and_cancellation` of investigation/workflows/investigation_workflow.py, for a workflow
-- that is paused when it comes to the gate.
use rev_pilot_ai.Base.{
  if◌then◌else◌, String, List, [], ◌∷◌, true, none, some, ok, err, ◌≡◌, ◌≢◌, ◌⊎◌, inl, inr, arith,
  refl, Bool-cases, Option-cases, Result-cases, ◌>>◌, raise, bind_ok, bind_err, subst, sym, Result,
  if_cases, ap, ◌∙◌, modify,
}
use rev_pilot_ai.Investigation.{
  InvestigationStatus, initializing, planning, gathering_evidence, verifying, completed,
  need_more_evidence, paused, cancelled, failed, same_status, transition_investigation_state,
  static_permitted_transitions, paused_permitted, active_states, is_in, permitted_from,
}
use rev_pilot_ai.Investigation.Workflow.{
  Event, signals, returns, fails, Signal, pause_investigation, resume_investigation,
  cancel_investigation, WorkflowState, pause_now, resume_now, on_signal, deliver, change_status,
  may_go, wait_from, after_wait, check_pause_and_cancellation, Step, workflow_cancelled, Failure,
  application_error, wait_condition, Stop, waiting, invalid_state_transition, unless_status,
  remember_state,
}

transition_investigation_state-same :
    (s s' : InvestigationStatus) → transition_investigation_state s s (some s) ≢ ok s'
unfolding transition_investigation_state static_permitted_transitions paused_permitted active_states
transition_investigation_state-same initializing s' = cc
transition_investigation_state-same planning s' = cc
transition_investigation_state-same gathering_evidence s' = cc
transition_investigation_state-same verifying s' = cc
transition_investigation_state-same completed s' = cc
transition_investigation_state-same need_more_evidence s' = cc
transition_investigation_state-same paused s' = cc
transition_investigation_state-same cancelled s' = cc
transition_investigation_state-same failed s' = cc

-- A workflow at the gate: cancelled, resumed, or paused with the state to go back to.
abbrev AtGate : WorkflowState → Type 0
AtGate w =
    (w.is_cancelled ≡ true)
    ⊎ ((w.prior_active_state ≡ some w.status)
        ⊎ ((w.is_paused ≡ true) × ((w.status ≡ paused) × (w.prior_active_state ≢ none))))

same_status-paused : (s : InvestigationStatus) → same_status s paused ≡ true → s ≡ paused
same_status-paused paused h = refl
same_status-paused initializing h = cc
same_status-paused planning h = cc
same_status-paused gathering_evidence h = cc
same_status-paused verifying h = cc
same_status-paused completed h = cc
same_status-paused need_more_evidence h = cc
same_status-paused cancelled h = cc
same_status-paused failed h = cc

pause_now-AtGate : (r b : String) (w : WorkflowState) → AtGate w → AtGate (pause_now r b w)
pause_now-AtGate r b w g = elim (Bool-cases (same_status w.status paused)) [
  | inl e ↦ let at = same_status-paused w.status e in ground arith
  | inr e ↦ ground arith
]

resume_now-AtGate : (w : WorkflowState) → AtGate w → AtGate (resume_now w)
resume_now-AtGate w g = elim (Option-cases w.prior_active_state) [
  | inl e ↦ ground arith
  | inr (p, e) ↦ ground arith
]

on_signal-AtGate : (x : Signal) (w : WorkflowState) → AtGate w → AtGate (on_signal x w)
unfolding on_signal
on_signal-AtGate (pause_investigation r b) w g = let kept = pause_now-AtGate r b w g in ground arith
on_signal-AtGate (resume_investigation b) w g = let kept = resume_now-AtGate w g in ground arith
on_signal-AtGate (cancel_investigation r b) w g = ground arith

deliver-AtGate : (e : Event) (w : WorkflowState) → AtGate w → AtGate (deliver e w)
deliver-AtGate (signals x) w g = on_signal-AtGate x w g
deliver-AtGate (returns r) w g = g
deliver-AtGate fails w g = g

change_status-same :
    (w : WorkflowState)
    → w.prior_active_state ≡ some w.status
    → (change_status w.status w).0 ≢ ok tt
unfolding change_status
change_status-same w e =
    elim (Result-cases (transition_investigation_state w.status w.status w.prior_active_state)) [
      | inl (s, r) ↦
          let never = transition_investigation_state-same w.status s in
          let same = subst (λ p. transition_investigation_state w.status w.status p ≡ ok s) e r in
          ground (arith, never, same)
      | inr (x, r) ↦ ground (arith, r)
    ]

raises_after :
    {A : Type 0} (m : Step A) (f : Failure) (w : WorkflowState)
    → ((m >> raise {A = Unit {0}} (application_error f)) w).0 ≢ ok tt
raises_after m f w = elim (Result-cases (m w).0) [
  | inl (a, e) ↦ let same = bind_ok m (λ _. raise {A = Unit {0}} (application_error f)) w e in cc
  | inr (x, e) ↦ let same = bind_err m (λ _. raise {A = Unit {0}} (application_error f)) w e in cc
]

after_wait-raises : (w : WorkflowState) → may_go w ≡ true → AtGate w → (after_wait w).0 ≢ ok tt
unfolding after_wait
after_wait-raises w go g = elim (Bool-cases w.is_cancelled) [
  | inl c ↦ let never = raises_after (change_status cancelled) workflow_cancelled w in ground arith
  | inr c ↦ elim g [
    | inl x ↦ absurd (cc)
    | inr (inl e) ↦ let never = change_status-same w e in ground (arith, e)
    | inr (inr x) ↦ ground arith
  ]
]

abbrev Waited : Result Stop (Unit {0}) × WorkflowState → Type 0
Waited o = o.0 ≡ ok tt → AtGate o.1 × (may_go o.1 ≡ true)

wait_from-Waited : (es : List Event) (w : WorkflowState) → AtGate w → Waited (wait_from es w)
unfolding wait_from
wait_from-Waited [] w g =
    if_cases Waited (may_go w) (ok tt, record w { history = [] })
      (err waiting, record w { history = [] }) (λ go h. (g, go)) (λ go h. absurd (cc))
wait_from-Waited (e ∷ es) w g =
    if_cases Waited (may_go w) (ok tt, record w { history = e ∷ es }) (wait_from es (deliver e w))
      (λ go h. (g, go)) (λ go h. wait_from-Waited es (deliver e w) (deliver-AtGate e w g) h)

wait_condition-raises :
    (w : WorkflowState) → AtGate w → ((wait_condition >> after_wait) w).0 ≢ ok tt
wait_condition-raises w g = elim (Result-cases (wait_condition w).0) [
  | inl (a, e) ↦
      let (g', go) = wait_from-Waited w.history w g e in
      let same = bind_ok wait_condition (λ _. after_wait) w e in
      let never = after_wait-raises (wait_condition w).1 go g' in
      λ h. never (sym (ap (λ o. o.0) same) ∙ h)
  | inr (x, e) ↦ let same = bind_err wait_condition (λ _. after_wait) w e in cc
]

pub change_status_cases :
    (t : InvestigationStatus) (w : WorkflowState)
    → (change_status t w ≡ (ok tt, record w { status = t }))
      ⊎ (change_status t w ≡ (err (application_error invalid_state_transition), w))
unfolding change_status transition_investigation_state
change_status_cases t w =
    elim (Bool-cases (is_in t (permitted_from w.status w.prior_active_state))) [
      | inl e ↦ inl (cc)
      | inr e ↦ inr (cc)
    ]

abbrev hold : Step (Unit {0})
hold = unless_status paused (modify remember_state >> change_status paused)

hold-AtGate :
    (w : WorkflowState)
    → w.is_paused ≡ true
    → (w.status ≡ paused → w.prior_active_state ≢ none)
    → (hold w).0 ≡ ok tt
    → AtGate (hold w).1
hold-AtGate w flag prior =
    if_cases (λ o. o.0 ≡ ok tt → AtGate o.1) (same_status w.status paused) (ok tt, w)
      (change_status paused (remember_state w))
      (λ e h. let at = same_status-paused w.status e in inr (inr (flag, (at, prior at))))
      (λ e h. elim (change_status_cases paused (remember_state w)) [
        | inl e ↦ subst (λ o. AtGate o.1) (sym e) (inr (inr (flag, (refl, λ n. absurd (cc)))))
        | inr e ↦ absurd (cc)
      ])

hold-raises :
    (w : WorkflowState)
    → w.is_paused ≡ true
    → (w.status ≡ paused → w.prior_active_state ≢ none)
    → ((hold >> (wait_condition >> after_wait)) w).0 ≢ ok tt
hold-raises w flag prior = elim (Result-cases (hold w).0) [
  | inl (a, e) ↦
      let same = bind_ok hold (λ _. wait_condition >> after_wait) w e in
      let never = wait_condition-raises (hold w).1 (hold-AtGate w flag prior e) in
      λ h. never (sym (ap (λ o. o.0) same) ∙ h)
  | inr (x, e) ↦ let same = bind_err hold (λ _. wait_condition >> after_wait) w e in cc
]

-- A workflow that is paused when it comes to a gate, and that knows the state it paused in where its
-- status is PAUSED, never passes: the gate raises or waits on, whatever signals come.
pub check_pause_and_cancellation-never :
    (w : WorkflowState)
    → w.is_paused ≡ true
    → (w.status ≡ paused → w.prior_active_state ≢ none)
    → (check_pause_and_cancellation w).0 ≢ ok tt
unfolding check_pause_and_cancellation
check_pause_and_cancellation-never w flag prior =
    let cancel =
      unless_status cancelled (change_status cancelled)
      >> raise (application_error workflow_cancelled) in
    let wait = hold >> (wait_condition >> after_wait) in
    if_cases (λ o. o.0 ≢ ok tt) w.is_cancelled (cancel w)
      (if w.is_paused then wait w else (ok tt, w))
      (λ c. raises_after (unless_status cancelled (change_status cancelled)) workflow_cancelled w)
      (λ c.
        if_cases (λ o. o.0 ≢ ok tt) w.is_paused (wait w) (ok tt, w) (λ p. hold-raises w flag prior)
          (λ p. absurd (cc)))
