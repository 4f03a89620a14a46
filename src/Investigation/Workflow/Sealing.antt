-- ===== src/Investigation/Workflow/Sealing.antt =====
-- `run` of investigation/workflows/investigation_workflow.py: how it returns, and what it spends.
use rev_pilot_ai.Base.{
  String, true, some, Result, ok, err, pure, modify, ◌≡◌, ◌⊎◌, inl, inr, refl, ◌>>◌, bind_returns,
  subst, if_cases, Ensures, Ensures-bind, ap, sym,
}
use rev_pilot_ai.Investigation.{
  InvestigationStatus, completed, need_more_evidence, cancelled, failed, same_status, planning,
}
use rev_pilot_ai.Investigation.Workflow.{
  WorkflowState, Step, change_status, check_pause_and_cancellation, execute_activity, spend,
  application_error, exception, waiting, Stop, InvestigationManifest, InvestigationManifest,
  application_error, Stop,
}
use rev_pilot_ai.Investigation.Workflow.Gate.{change_status_cases}
use rev_pilot_ai.Investigation.Workflow.Run.{
  InvestigationWorkflowInput, validate, evidence_loop, package_evidence, cents, investigate,
  guarded, rescue, admit, run, begin, set_manifest, finish_status, set_step, rescue,
}

-- The workflow has ended with this manifest.
abbrev pub IsSealed : InvestigationManifest → WorkflowState → Type 0
IsSealed m w = ((w.status ≡ completed) ⊎ (w.status ≡ need_more_evidence)) × (w.manifest ≡ some m)

same_status-need_more_evidence :
    (s : InvestigationStatus) → same_status s need_more_evidence ≡ true → s ≡ need_more_evidence
same_status-need_more_evidence need_more_evidence h = refl
same_status-need_more_evidence InvestigationStatus.initializing h = absurd (cc)
same_status-need_more_evidence InvestigationStatus.planning h = absurd (cc)
same_status-need_more_evidence InvestigationStatus.gathering_evidence h = absurd (cc)
same_status-need_more_evidence InvestigationStatus.verifying h = absurd (cc)
same_status-need_more_evidence InvestigationStatus.paused h = absurd (cc)
same_status-need_more_evidence completed h = absurd (cc)
same_status-need_more_evidence cancelled h = absurd (cc)
same_status-need_more_evidence failed h = absurd (cc)

finish_status-IsSealed :
    (m : InvestigationManifest) (w : WorkflowState)
    → w.manifest ≡ some m
    → (finish_status w).0 ≡ ok tt
    → IsSealed m (finish_status w).1
finish_status-IsSealed m w filed =
    if_cases (λ o. o.0 ≡ ok tt → IsSealed m o.1) (same_status w.status need_more_evidence)
      (ok tt, w) (change_status completed w)
      (λ e h. (inr (same_status-need_more_evidence w.status e), filed))
      (λ e h. elim (change_status_cases completed w) [
        | inl c ↦ subst (λ o. IsSealed m o.1) (sym c) (inl refl, filed)
        | inr c ↦ absurd (cc)
      ])

ok-injective : {E A : Type 0} {r : Result E A} {a b : A} → r ≡ ok a → r ≡ ok b → a ≡ b
ok-injective h k = cc

abbrev seal : InvestigationManifest → Step InvestigationManifest
seal m = do modify (set_manifest m); finish_status; modify (set_step "SEALED"); pure m

seal-IsSealed : (m : InvestigationManifest) → Ensures IsSealed (seal m)
unfolding Ensures
seal-IsSealed m w b h =
    let (a, (e, same)) =
      bind_returns finish_status (λ _. modify (set_step "SEALED") >> pure m) (set_manifest m w) h in
    let sealed = finish_status-IsSealed m (set_manifest m w) refl e in
    let value : m ≡ b = ok-injective (ap (λ o. o.0) same) h in
    subst (λ o. IsSealed b o.1) (sym same)
      (subst (λ x. IsSealed x (finish_status (set_manifest m w)).1) value sealed)

package_evidence-IsSealed : Ensures IsSealed package_evidence
unfolding package_evidence
package_evidence-IsSealed =
    Ensures-bind IsSealed (modify (set_step "PACKAGING_EVIDENCE")) _
      (λ _. Ensures-bind IsSealed execute_activity _ (λ r. seal-IsSealed r.manifest))

rescue-Ensures :
    {A : Type 0} (Q : A → WorkflowState → Type 0) (r : Result Stop A) (w : WorkflowState)
    → ((a : A) → r ≡ ok a → Q a w)
    → (a : A) → (rescue r w).0 ≡ ok a
    → Q a (rescue r w).1
unfolding rescue
rescue-Ensures Q (ok x) w q a h = q a h
rescue-Ensures Q (err (application_error f)) w q a h = absurd (cc)
rescue-Ensures Q (err exception) w q a h = absurd (cc)
rescue-Ensures Q (err waiting) w q a h = absurd (cc)

guarded-Ensures :
    {A : Type 0} (Q : A → WorkflowState → Type 0) (m : Step A) → Ensures Q m → Ensures Q (guarded m)
unfolding Ensures
guarded-Ensures Q m q w = rescue-Ensures Q (m w).0 (m w).1 (q w)

investigate-IsSealed : Ensures IsSealed investigate
unfolding investigate
investigate-IsSealed = Ensures-bind IsSealed execute_activity _ (λ scope.
    Ensures-bind IsSealed (spend (cents 5)) _ (λ _.
      Ensures-bind IsSealed check_pause_and_cancellation _ (λ _.
        Ensures-bind IsSealed (modify (set_step "GENERATING_PLAN")) _ (λ _.
          Ensures-bind IsSealed execute_activity _ (λ plan.
            Ensures-bind IsSealed (spend (cents 20)) _ (λ _.
              Ensures-bind IsSealed check_pause_and_cancellation _ (λ _.
                Ensures-bind IsSealed (evidence_loop 1) _ (λ top.
                  Ensures-bind IsSealed check_pause_and_cancellation _
                    (λ _. package_evidence-IsSealed)))))))))

run-Ensures :
    (i : InvestigationWorkflowInput) (workflow_id : String) → Ensures IsSealed (run i workflow_id)
unfolding run
run-Ensures i workflow_id = Ensures-bind IsSealed (modify (begin i)) _ (λ _.
    Ensures-bind IsSealed (admit (validate i workflow_id)) _ (λ _.
      Ensures-bind IsSealed check_pause_and_cancellation _ (λ _.
        Ensures-bind IsSealed (change_status planning) _ (λ _.
          Ensures-bind IsSealed (modify (set_step "VALIDATING_SCOPE")) _
            (λ _. guarded-Ensures IsSealed investigate investigate-IsSealed)))))

-- When `run` returns a manifest, the investigation stands COMPLETED or NEED_MORE_EVIDENCE and holds that
-- manifest, whatever signals and failures came before.
pub run-IsSealed :
    (i : InvestigationWorkflowInput) (workflow_id : String) (w : WorkflowState)
    (m : InvestigationManifest)
    → (run i workflow_id w).0 ≡ ok m
    → IsSealed m (run i workflow_id w).1
unfolding Ensures
run-IsSealed i workflow_id w m h = run-Ensures i workflow_id w m h
