-- ===== src/Investigation/Workflow/Spent.antt =====
-- The budget through the guarded block of `run` in investigation/workflows/investigation_workflow.py.
use rev_pilot_ai.Base.{
  String, Option, none, Result, ok, err, pure, modify, arith, Keeps, Keeps-bind, Keeps-modify,
  Keeps-pure, Keeps-choose, ℕ, zero, suc,
}
use rev_pilot_ai.Investigation.{
  InvestigationStatus, planning, gathering_evidence, verifying, paused, completed, failed,
  same_status,
}
use rev_pilot_ai.Investigation.Workflow.{
  WorkflowState, Step, change_status, check_pause_and_cancellation, execute_activity, spend,
  Verdict, Stop, waiting, application_error, exception, verified, need_more_evidence, refuted,
  verification_refuted,
}
use rev_pilot_ai.Investigation.Workflow.Limits.{
  IsWithin, change_status-IsWithin, check-IsWithin, execute_activity-IsWithin, spend-IsWithin,
  gated_activity-IsWithin, change_and_raise-IsWithin, set_step-IsWithin,
}
use rev_pilot_ai.Investigation.Workflow.Run.{
  gated_activity, gather_evidence, verify_evidence, on_verdict, evidence_loop, package_evidence,
  investigate, guarded, set_manifest, finish_status, set_step, cents, rescue, add_digest,
  note_nothing, set_error,
}
use rev_pilot_ai.Investigation

set-IsWithin :
    (f : WorkflowState → WorkflowState)
    → ((w : WorkflowState) → IsWithin w → IsWithin (f w))
    → Keeps IsWithin (modify {E = Stop} f)
set-IsWithin f kept = Keeps-modify IsWithin Stop f kept

gather_evidence-IsWithin : (name : String) → Keeps IsWithin (gather_evidence name)
unfolding gather_evidence
gather_evidence-IsWithin name =
    Keeps-bind IsWithin (change_status gathering_evidence) _
      (change_status-IsWithin gathering_evidence)
      (λ _. Keeps-bind IsWithin (modify (set_step name)) _ (set_step-IsWithin name) (λ _.
        Keeps-bind IsWithin (gated_activity (cents 10) add_digest) _
          (gated_activity-IsWithin (cents 10) add_digest (λ r w h. h))
          (λ sql.
            Keeps-bind IsWithin (gated_activity (cents 15) add_digest) _
              (gated_activity-IsWithin (cents 15) add_digest (λ r w h. h))
              (λ retrieval.
                Keeps-bind IsWithin (gated_activity (cents 10) note_nothing) _
                  (gated_activity-IsWithin (cents 10) note_nothing (λ r w h. h))
                  (λ tickets.
                    Keeps-bind IsWithin (gated_activity (cents 25) note_nothing) _
                      (gated_activity-IsWithin (cents 25) note_nothing (λ r w h. h))
                      (λ synthesis. check-IsWithin))))))

verify_evidence-IsWithin : Keeps IsWithin verify_evidence
unfolding verify_evidence
verify_evidence-IsWithin =
    Keeps-bind IsWithin (change_status verifying) _ (change_status-IsWithin verifying) (λ _.
      Keeps-bind IsWithin (modify (set_step "VERIFYING_HYPOTHESES")) _
        (set_step-IsWithin "VERIFYING_HYPOTHESES") (λ _. execute_activity-IsWithin))

on_verdict-IsWithin :
    (v : Verdict) (top : Option String) (rounds : ℕ) (again : Step (Option String))
    → Keeps IsWithin again
    → Keeps IsWithin (on_verdict v top rounds again)
on_verdict-IsWithin verified top rounds again kept = Keeps-pure IsWithin Stop top
on_verdict-IsWithin need_more_evidence top zero again kept =
    Keeps-bind IsWithin (change_status Investigation.need_more_evidence) _
      (change_status-IsWithin Investigation.need_more_evidence) (λ _. Keeps-pure IsWithin Stop top)
on_verdict-IsWithin need_more_evidence top (suc rounds) again kept = kept
on_verdict-IsWithin refuted top rounds again kept =
    Keeps-bind IsWithin (change_status failed) _ (change_status-IsWithin failed) (λ _.
      change_and_raise-IsWithin (Option String) (modify (set_error verification_refuted))
        (application_error verification_refuted)
        (set-IsWithin (set_error verification_refuted) (λ w h. h)))

evidence_loop-IsWithin : (rounds : ℕ) → Keeps IsWithin (evidence_loop rounds)
unfolding evidence_loop
evidence_loop-IsWithin zero =
    Keeps-bind IsWithin (gather_evidence "GATHERING_EVIDENCE_LOOP_2") _
      (gather_evidence-IsWithin "GATHERING_EVIDENCE_LOOP_2")
      (λ _. Keeps-bind IsWithin verify_evidence _ verify_evidence-IsWithin (λ r.
        on_verdict-IsWithin r.verdict r.top_hypothesis_id 0 (pure none)
          (Keeps-pure IsWithin Stop none)))
evidence_loop-IsWithin (suc rounds) =
    Keeps-bind IsWithin (gather_evidence "GATHERING_EVIDENCE_LOOP_1") _
      (gather_evidence-IsWithin "GATHERING_EVIDENCE_LOOP_1")
      (λ _. Keeps-bind IsWithin verify_evidence _ verify_evidence-IsWithin (λ r.
        on_verdict-IsWithin r.verdict r.top_hypothesis_id (suc rounds) (evidence_loop rounds)
          (evidence_loop-IsWithin rounds)))

finish_status-IsWithin : Keeps IsWithin finish_status
finish_status-IsWithin =
    Keeps-choose IsWithin Stop (λ w. same_status w.status Investigation.need_more_evidence)
      (pure tt) (change_status completed) (Keeps-pure IsWithin Stop tt)
      (change_status-IsWithin completed)

package_evidence-IsWithin : Keeps IsWithin package_evidence
unfolding package_evidence
package_evidence-IsWithin =
    Keeps-bind IsWithin (modify (set_step "PACKAGING_EVIDENCE")) _
      (set_step-IsWithin "PACKAGING_EVIDENCE")
      (λ _. Keeps-bind IsWithin execute_activity _ execute_activity-IsWithin (λ r.
        Keeps-bind IsWithin (modify (set_manifest r.manifest)) _
          (set-IsWithin (set_manifest r.manifest) (λ w h. h))
          (λ _. Keeps-bind IsWithin finish_status _ finish_status-IsWithin (λ _.
            Keeps-bind IsWithin (modify (set_step "SEALED")) _ (set_step-IsWithin "SEALED")
              (λ _. Keeps-pure IsWithin Stop r.manifest)))))

investigate-IsWithin : Keeps IsWithin investigate
unfolding investigate
investigate-IsWithin = Keeps-bind IsWithin execute_activity _ execute_activity-IsWithin (λ scope.
    Keeps-bind IsWithin (spend (cents 5)) _ (spend-IsWithin (cents 5)) (λ _.
      Keeps-bind IsWithin check_pause_and_cancellation _ check-IsWithin (λ _.
        Keeps-bind IsWithin (modify (set_step "GENERATING_PLAN")) _
          (set_step-IsWithin "GENERATING_PLAN")
          (λ _. Keeps-bind IsWithin execute_activity _ execute_activity-IsWithin (λ plan.
            Keeps-bind IsWithin (spend (cents 20)) _ (spend-IsWithin (cents 20)) (λ _.
              Keeps-bind IsWithin check_pause_and_cancellation _ check-IsWithin (λ _.
                Keeps-bind IsWithin (evidence_loop 1) _ (evidence_loop-IsWithin 1) (λ top.
                  Keeps-bind IsWithin check_pause_and_cancellation _ check-IsWithin
                    (λ _. package_evidence-IsWithin)))))))))

rescue-IsWithin :
    {A : Type 0} (r : Result Stop A) (w : WorkflowState) → IsWithin w → IsWithin (rescue r w).1
unfolding rescue
rescue-IsWithin (ok a) w h = h
rescue-IsWithin (err (application_error e)) w h = h
rescue-IsWithin (err exception) w h = ground arith
rescue-IsWithin (err waiting) w h = h

-- From any state whose recorded spend is at most its hard stop, however little of it is left: the guarded
-- block of `run`, from the first activity to the sealing, ends with the spend at most the hard stop,
-- whatever events come and whether it returns, raises or waits on.
pub guarded-IsWithin : (w : WorkflowState) → IsWithin w → IsWithin (guarded investigate w).1
unfolding Keeps
guarded-IsWithin w h =
    rescue-IsWithin (investigate w).0 (investigate w).1 (investigate-IsWithin w h)
