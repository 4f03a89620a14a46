-- ===== src/Investigation/Workflow/Completion.antt =====
-- `run` of investigation/workflows/investigation_workflow.py where nothing interrupts it.
use rev_pilot_ai.Base.{
  List, [], ◌∷◌, String, ok, ◌≡◌, refl, Result, modify, ◌>>◌, bind_ok, ap, ◌∙◌, subst, sym,
}
use rev_pilot_ai.Investigation.{completed, planning}
use rev_pilot_ai.Investigation.Workflow.{Reply, Event, returns, Verdict}
use rev_pilot_ai.Investigation.{
  record_spend, transition_investigation_state, static_permitted_transitions,
}
use rev_pilot_ai.Base.Int.{pos, ◌+ℤ◌}
use rev_pilot_ai.Investigation.Workflow.{
  execute_activity, await_from, spend, Reply, InvestigationManifest, Stop, WorkflowState, Step,
  verified, check_pause_and_cancellation, change_status,
}
use rev_pilot_ai.Investigation.Workflow.Run.{
  InvestigationWorkflowInput, validate, gated_activity, gather_evidence, verify_evidence,
  evidence_loop, package_evidence, investigate, run, new_workflow, cents, rescue, admit, begin,
  guarded, set_step,
}

-- The replies of one round: the four activities that gather evidence, and the verdict.
pub record Round : Type 0 where
  pub sql : Reply
  pub retrieval : Reply
  pub tickets : Reply
  pub synthesis : Reply
  pub verdict : Reply

abbrev pub events_of : Round → List Event → List Event
events_of r es =
    returns r.sql
    ∷ returns r.retrieval
    ∷ returns r.tickets
    ∷ returns r.synthesis
    ∷ returns r.verdict
    ∷ es

abbrev with_verdict : Verdict → Reply → Reply
with_verdict v r = record r { verdict = v }

abbrev pub Completes :
    InvestigationManifest → Round → Result Stop InvestigationManifest × WorkflowState → Type 0
Completes m r o =
    (o.0 ≡ ok m)
    × ((o.1.status ≡ completed)
        × ((o.1.evidence_digests ≡ r.sql.digest ∷ r.retrieval.digest ∷ [])
            × (o.1.budget.spent_usd ≡ pos (cents 85))))

-- The workflow behind its admission.
abbrev after_admission : Step InvestigationManifest
after_admission =
    check_pause_and_cancellation
    >> (change_status planning >> (modify (set_step "VALIDATING_SCOPE") >> guarded investigate))

after_admission-Completes :
    (i : InvestigationWorkflowInput) (scope plan packed : Reply) (r : Round)
    → Completes packed.manifest r (
        after_admission (
          begin i (
            new_workflow (
              returns scope
              ∷ returns plan
              ∷ events_of
                  (record r { verdict = with_verdict verified r.verdict })
                  (returns packed ∷ [])))))
unfolding investigate evidence_loop gather_evidence verify_evidence gated_activity execute_activity
    await_from spend record_spend check_pause_and_cancellation change_status
    transition_investigation_state static_permitted_transitions package_evidence rescue ◌+ℤ◌
after_admission-Completes i scope plan packed r = (refl, (refl, (refl, refl)))

-- An accepted input and a history without any signal, in which all eight activities return and the first
-- verdict is VERIFIED: `run` returns the manifest of the last activity, COMPLETED, with the digests of
-- that round and 0.85 USD spent.
pub run-Completes :
    (i : InvestigationWorkflowInput) (workflow_id : String) (scope plan packed : Reply) (r : Round)
    → validate i workflow_id ≡ ok tt
    → r.verdict.verdict ≡ Verdict.verified
    → let o =
        run i workflow_id
          (new_workflow (returns scope ∷ returns plan ∷ events_of r (returns packed ∷ []))) in
      Completes packed.manifest r o
unfolding run
run-Completes i workflow_id scope plan packed r valid v =
    let w = new_workflow (returns scope ∷ returns plan ∷ events_of r (returns packed ∷ [])) in
    let admitted : admit (validate i workflow_id) (begin i w) ≡ (ok tt, begin i w) =
      ap (λ x. admit x (begin i w)) valid in
    let same =
      bind_ok (admit (validate i workflow_id)) (λ _. after_admission) (begin i w)
        (ap (λ o. o.0) admitted) in
    let at = same ∙ ap (λ o. after_admission o.1) admitted in
    let state = λ (x : Verdict). begin i (
      new_workflow (
        returns scope
        ∷ returns plan
        ∷ events_of (record r { verdict = with_verdict x r.verdict }) (returns packed ∷ []))) in
    subst (Completes packed.manifest r) (sym at) (
      subst (λ x. Completes packed.manifest r (after_admission (state x))) (sym v)
        (after_admission-Completes i scope plan packed r))
