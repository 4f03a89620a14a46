-- ===== src/Action/Saga/Rollback.antt =====
-- The compensation of action/saga/workflow.py, step by step.
use rev_pilot_ai.Base.{
  ◌≡◌, refl, true, false, String, List, [], ◌∷◌, ◌++◌, reverse, ok, err, arith, Bool-cases, inl,
  inr, sym, ◌∙◌, subst,
}
use mathlib.Core.List.{append_assoc, append-nil}
use rev_pilot_ai.Action.Domain.{ActionClassification}
use rev_pilot_ai.Action.Saga.Activities.{
  completed, failed_manual_required, CompensationRecord, Environment, compensate_step_activity,
}
use rev_pilot_ai.Action.Saga.Workflow.{
  CompletedStep, step_name_of, payload_of, action_of, Saga, remember, compensate_each,
  compensate_steps, is_barred, barrier, irreversible_action,
}

-- The records of a rollback that goes through the given steps in order: each step is compensated,
-- until the first whose compensation fails; the steps behind that one have no record.
pub data Rolled : List CompletedStep → List CompensationRecord → Type 0 where
  finished : Rolled [] []
  halted :
      {e : CompletedStep} {es : List CompletedStep} {r : CompensationRecord}
      → (payload_of e).simulate_compensation_failure ≡ true
      → r.step_name ≡ step_name_of e
      → r.compensation_action ≡ action_of e
      → r.status ≡ failed_manual_required
      → Rolled (e ∷ es) (r ∷ [])
  undone :
      {e : CompletedStep} {es : List CompletedStep} {r : CompensationRecord}
      {rs : List CompensationRecord}
      → (payload_of e).simulate_compensation_failure ≡ false
      → r.step_name ≡ step_name_of e
      → r.compensation_action ≡ action_of e
      → r.status ≡ completed
      → Rolled es rs
      → Rolled (e ∷ es) (r ∷ rs)

-- Both histories grow by the records of the rollback.
pub record Filed (w w' : Saga) (rs : List CompensationRecord) : Type 0 where
  pub in_history : w'.compensation_history ≡ w.compensation_history ++ rs
  pub in_registry : w'.registry.compensation_records ≡ w.registry.compensation_records ++ rs

nothing-Filed : (w : Saga) → Filed w w []
nothing-Filed w = record {
  in_history = sym (append-nil w.compensation_history);
  in_registry = sym (append-nil w.registry.compensation_records);
}

module _ (env : Environment) (tenant intent : String) where
  step_failed :
      (e : CompletedStep) (es : List CompletedStep) (w : Saga)
      → (payload_of e).simulate_compensation_failure ≡ true
      → let (r, g) =
          compensate_step_activity env
            (step_name_of e)
            (action_of e)
            tenant
            intent
            true
            w.registry in
        compensate_each env tenant intent (e ∷ es) w ≡ (r ∷ [], remember r g w)
  unfolding compensate_each compensate_step_activity
  step_failed e es w h = ground (arith, h)

  step_done :
      (e : CompletedStep) (es : List CompletedStep) (w : Saga)
      → (payload_of e).simulate_compensation_failure ≡ false
      → let (r, g) =
          compensate_step_activity env
            (step_name_of e)
            (action_of e)
            tenant
            intent
            false
            w.registry in
        let (rs, w') = compensate_each env tenant intent es (remember r g w) in
        compensate_each env tenant intent (e ∷ es) w ≡ (r ∷ rs, w')
  unfolding compensate_each compensate_step_activity
  step_done e es w h = ground (arith, h)

  abbrev Ends : List CompletedStep → Saga → List CompensationRecord × Saga → Type 0
  Ends es w out = Rolled es out.0 × Filed w out.1 out.0

  compensate_each-Ends :
      (es : List CompletedStep) (w : Saga) → Ends es w (compensate_each env tenant intent es w)
  unfolding compensate_each compensate_step_activity
  compensate_each-Ends [] w = (finished, nothing-Filed w)
  compensate_each-Ends (e ∷ es) w = elim (Bool-cases (payload_of e).simulate_compensation_failure) [
    | inl fails ↦
        subst (Ends (e ∷ es) w) (sym (step_failed e es w fails))
          (halted fails refl refl refl, record { in_history = refl; in_registry = refl })
    | inr works ↦
        let (r, g) =
          compensate_step_activity env (step_name_of e) (action_of e) tenant intent false
            w.registry in
        let (rolled, filed) = compensate_each-Ends es (remember r g w) in
        subst (Ends (e ∷ es) w) (sym (step_done e es w works)) (
          undone works refl refl refl rolled,
          record {
            in_history = filed.in_history ∙ append_assoc w.compensation_history (r ∷ []) _;
            in_registry =
                filed.in_registry ∙ append_assoc w.registry.compensation_records (r ∷ []) _;
          },
        )
  ]

-- If the action may be rolled back, `compensate_steps` compensates the completed steps from the last
-- to the first, stops behind the first compensation that fails, returns a record for each one tried,
-- and adds just those records to the workflow's history and to the registry.
pub compensate_steps-Rolled :
    (env : Environment) (tenant intent : String) (c : ActionClassification)
    (steps : List CompletedStep) (w : Saga)
    → is_barred c ≡ false
    → (rs : List CompensationRecord) × ((compensate_steps env tenant intent c steps w).0 ≡ ok rs)
      × Rolled (reverse steps) rs
      × Filed w (compensate_steps env tenant intent c steps w).1 rs
unfolding compensate_steps
compensate_steps-Rolled env tenant intent c steps w h =
    let (rolled, filed) = compensate_each-Ends env tenant intent (reverse steps) w in
    rw h ((compensate_each env tenant intent (reverse steps) w).0, refl, rolled, filed)

-- An irreversible action is never compensated: the call raises, and its only trace is one record
-- that asks for manual work.
pub compensate_steps-irreversible :
    (env : Environment) (tenant intent : String) (c : ActionClassification)
    (steps : List CompletedStep) (w : Saga)
    → is_barred c ≡ true
    → let r = barrier env tenant intent w.registry in
      let out = compensate_steps env tenant intent c steps w in
      (out.0 ≡ err irreversible_action)
      × (r.status ≡ failed_manual_required)
      × Filed w out.1 (r ∷ [])
      × (out.1.registry.paged_incidents ≡ w.registry.paged_incidents)
unfolding compensate_steps
compensate_steps-irreversible env tenant intent c steps w h =
    rw h (refl, refl, record { in_history = refl; in_registry = refl }, refl)
