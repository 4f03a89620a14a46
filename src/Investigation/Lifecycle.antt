-- ===== src/Investigation/Lifecycle.antt =====
-- What the transitions of investigation/domain/state_machine.py allow.
use rev_pilot_ai.Base.{◌≡◌, refl, ◌↔◌, Option, none, some, ok, arith}
use rev_pilot_ai.Investigation.{
  InvestigationStatus, initializing, planning, gathering_evidence, verifying, completed,
  need_more_evidence, paused, cancelled, failed, transition_investigation_state,
  static_permitted_transitions, paused_permitted,
}

-- The states in which work goes on.
pub data IsActive : InvestigationStatus → Type 0 where
  active_initializing : IsActive initializing
  active_planning : IsActive planning
  active_gathering : IsActive gathering_evidence
  active_verifying : IsActive verifying

-- The lifecycle, with the state that was active before a pause where it is known.
pub data Moves
    : Option InvestigationStatus → InvestigationStatus → InvestigationStatus → Type 0 where
  plan : {p : Option InvestigationStatus} → Moves p initializing planning
  gather : {p : Option InvestigationStatus} → Moves p planning gathering_evidence
  verify : {p : Option InvestigationStatus} → Moves p gathering_evidence verifying
  gather_again : {p : Option InvestigationStatus} → Moves p verifying gathering_evidence
  complete : {p : Option InvestigationStatus} → Moves p verifying completed
  run_short : {p : Option InvestigationStatus} → Moves p verifying need_more_evidence
  pause : {p : Option InvestigationStatus} {s : InvestigationStatus} → IsActive s → Moves p s paused
  cancel :
      {p : Option InvestigationStatus} {s : InvestigationStatus} → IsActive s → Moves p s cancelled
  fail : {p : Option InvestigationStatus} {s : InvestigationStatus} → IsActive s → Moves p s failed
  cancel_paused : {p : Option InvestigationStatus} → Moves p paused cancelled
  fail_paused : {p : Option InvestigationStatus} → Moves p paused failed
  resume : {s : InvestigationStatus} → IsActive s → Moves (some s) paused s
  resume_any : {s : InvestigationStatus} → IsActive s → Moves none paused s

ruleset moves = (
  active_initializing, active_planning, active_gathering, active_verifying, plan, gather, verify,
  gather_again, complete, run_short, pause, cancel, fail, cancel_paused, fail_paused, resume,
  resume_any,
)

transition-Moves :
    (p : Option InvestigationStatus) (s t : InvestigationStatus)
    → transition_investigation_state s t p ≡ ok t
    → Moves p s t
unfolding transition_investigation_state static_permitted_transitions paused_permitted
transition-Moves p s t h = grind (arith, moves)

Moves-transition :
    (p : Option InvestigationStatus) (s t : InvestigationStatus)
    → Moves p s t
    → transition_investigation_state s t p ≡ ok t
unfolding transition_investigation_state static_permitted_transitions paused_permitted
Moves-transition p s t plan = refl
Moves-transition p s t gather = refl
Moves-transition p s t verify = refl
Moves-transition p s t gather_again = refl
Moves-transition p s t complete = refl
Moves-transition p s t run_short = refl
Moves-transition p s t cancel_paused = ground arith
Moves-transition p s t fail_paused = ground arith
Moves-transition p s t (pause active_initializing) = refl
Moves-transition p s t (pause active_planning) = refl
Moves-transition p s t (pause active_gathering) = refl
Moves-transition p s t (pause active_verifying) = refl
Moves-transition p s t (cancel active_initializing) = refl
Moves-transition p s t (cancel active_planning) = refl
Moves-transition p s t (cancel active_gathering) = refl
Moves-transition p s t (cancel active_verifying) = refl
Moves-transition p s t (fail active_initializing) = refl
Moves-transition p s t (fail active_planning) = refl
Moves-transition p s t (fail active_gathering) = refl
Moves-transition p s t (fail active_verifying) = refl
Moves-transition p s t (resume active_initializing) = refl
Moves-transition p s t (resume active_planning) = refl
Moves-transition p s t (resume active_gathering) = refl
Moves-transition p s t (resume active_verifying) = refl
Moves-transition p s t (resume_any active_initializing) = refl
Moves-transition p s t (resume_any active_planning) = refl
Moves-transition p s t (resume_any active_gathering) = refl
Moves-transition p s t (resume_any active_verifying) = refl

-- For every two states and prior active state, `transition_investigation_state` succeeds exactly
-- when the lifecycle has the move: forward through the phases, back from verifying to gathering, a
-- pause, cancellation or failure of an active state, and from a pause the prior active state alone,
-- or any active state where none is given. No other move leaves a state, so the four terminal
-- states are left by none.
pub transition_investigation_state_iff :
    (p : Option InvestigationStatus) (s t : InvestigationStatus)
    → (transition_investigation_state s t p ≡ ok t) ↔ Moves p s t
transition_investigation_state_iff p s t = (transition-Moves p s t, Moves-transition p s t)
