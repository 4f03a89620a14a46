-- ===== src/Action/Saga/Outcome.antt =====
-- How a whole saga of action/saga/workflow.py ends, by its first step that times out or fails.
use rev_pilot_ai.Base.{
  ℕ, ◌≡◌, refl, true, false, String, List, [], ◌∷◌, ◌++◌, reverse, All, arith, sym, ◌∙◌, ap,
}
use mathlib.Core.List.{append_assoc, append-nil}
use rev_pilot_ai.Base.Time.{UtcDateTime}
use rev_pilot_ai.Action.Domain.{ActionIntentRecord, ActionLedgerRecord, compensated}
use rev_pilot_ai.Action.Saga.Reconciliation.{Answer}
use rev_pilot_ai.Action.Saga.Activities.{CompensationRecord, Environment}
use rev_pilot_ai.Action.Saga.Workflow.{
  SagaStep, CompletedStep, triple, Saga, compensate_steps, is_barred, succeeded_entry, failed_entry,
  advance, execute_each, execute_action_saga,
}
use rev_pilot_ai.Action.Saga.Rollback.{Rolled, Filed, compensate_steps-Rolled}

-- A step that neither times out nor fails.
abbrev pub IsCalm : SagaStep → Type 0
IsCalm st = (st.payload.simulate_timeout ≡ false) × (st.payload.simulate_failure ≡ false)

-- What the loop knows of the steps that it has completed.
abbrev pub completed_of : List SagaStep → List CompletedStep
completed_of [] = []
completed_of (st ∷ sts) = triple st.name st.payload st.compensation_action ∷ completed_of sts

abbrev pub advance_all : List SagaStep → Saga → Saga
advance_all [] w = w
advance_all (st ∷ sts) w = advance_all sts (advance st w)

advance_all-history :
    (sts : List SagaStep) (w : Saga)
    → (advance_all sts w).compensation_history ≡ w.compensation_history
advance_all-history [] w = refl
advance_all-history (st ∷ sts) w = advance_all-history sts (advance st w)

advance_all-registry : (sts : List SagaStep) (w : Saga) → (advance_all sts w).registry ≡ w.registry
advance_all-registry [] w = refl
advance_all-registry (st ∷ sts) w = advance_all-registry sts (advance st w)

module _ (env : Environment) (query : ℕ → Answer) (i : ActionIntentRecord)
    (ledger_id event_id : String) (now : UtcDateTime) where
  execute_step :
      (st : SagaStep) (sts : List SagaStep) (done : List CompletedStep) (w : Saga)
      → IsCalm st
      → execute_each env query i ledger_id event_id now (st ∷ sts) done w
        ≡ execute_each env query i ledger_id event_id now sts
            (done ++ triple st.name st.payload st.compensation_action ∷ [])
            (advance st w)
  unfolding execute_each
  execute_step st sts done w h = ground (arith, h)

  execute_prefix :
      (calm rest : List SagaStep) (done : List CompletedStep) (w : Saga)
      → All IsCalm calm
      → execute_each env query i ledger_id event_id now (calm ++ rest) done w
        ≡ execute_each env query i ledger_id event_id now rest
            (done ++ completed_of calm)
            (advance_all calm w)
  execute_prefix [] rest done w h =
      ap (λ d. execute_each env query i ledger_id event_id now rest d w) (sym (append-nil done))
  execute_prefix (st ∷ calm) rest done w h =
      execute_step st (calm ++ rest) done w h.0
      ∙ execute_prefix calm rest (done ++ triple st.name st.payload st.compensation_action ∷ [])
          (advance st w) h.1
      ∙ ap (λ d. execute_each env query i ledger_id event_id now rest d (advance_all (st ∷ calm) w))
          (append_assoc done (triple st.name st.payload st.compensation_action ∷ [])
            (completed_of calm))

  execute_failure :
      (st : SagaStep) (sts : List SagaStep) (done : List CompletedStep) (w : Saga)
      → st.payload.simulate_timeout ≡ false
      → st.payload.simulate_failure ≡ true
      → let (r, w') = compensate_steps env i.tenant_id i.intent_id i.classification done w in
        execute_each env query i ledger_id event_id now (st ∷ sts) done w
        ≡ (failed_entry i ledger_id now r, w')
  unfolding execute_each
  execute_failure st sts done w t h = ground (arith, t, h)

  -- If no step times out or fails, the saga succeeds, having recorded every step in order, and
  -- compensates nothing and asks nothing.
  pub execute_action_saga-calm :
      (steps : List SagaStep) (w : Saga)
      → All IsCalm steps
      → execute_action_saga env query i ledger_id event_id now steps w
        ≡ (succeeded_entry i ledger_id now, advance_all steps w)
  unfolding execute_action_saga execute_each
  execute_action_saga-calm steps w h =
      ap (λ l. execute_each env query i ledger_id event_id now l [] w) (sym (append-nil steps))
      ∙ execute_prefix steps [] [] w h

  -- If a step fails behind steps that completed and the action may be rolled back, the saga rolls
  -- back those steps from the last to the first, and its entry says COMPENSATED: also where a
  -- compensation failed, which ends the rollback and leaves the steps before it as they are.
  pub execute_action_saga-failure :
      (calm : List SagaStep) (st : SagaStep) (sts : List SagaStep) (w : Saga)
      → All IsCalm calm
      → st.payload.simulate_timeout ≡ false
      → st.payload.simulate_failure ≡ true
      → is_barred i.classification ≡ false
      → let out = execute_action_saga env query i ledger_id event_id now (calm ++ st ∷ sts) w in
        (rs : List CompensationRecord) × Rolled (reverse (completed_of calm)) rs
        × Filed w out.1 rs
        × (out.0.execution_status ≡ compensated)
  unfolding execute_action_saga
  execute_action_saga-failure calm st sts w h t f b =
      let w' = advance_all calm w in
      let (rs, e, rolled, filed) =
        compensate_steps-Rolled env i.tenant_id i.intent_id i.classification (completed_of calm) w'
          b in
      let same =
        execute_prefix calm (st ∷ sts) [] w h ∙ execute_failure st sts (completed_of calm) w' t f in
      (
        rs,
        rolled,
        record {
          in_history =
              ap (λ (o : ActionLedgerRecord × Saga). o.1.compensation_history) same
              ∙ filed.in_history
              ∙ ap (λ x. x ++ rs) (advance_all-history calm w);
          in_registry =
              ap (λ (o : ActionLedgerRecord × Saga). o.1.registry.compensation_records) same
              ∙ filed.in_registry
              ∙ ap (λ x. x.compensation_records ++ rs) (advance_all-registry calm w);
        },
        ap (λ (o : ActionLedgerRecord × Saga). o.0.execution_status) same
            ∙ ap (λ r. (failed_entry i ledger_id now r).execution_status) e,
      )
