-- ===== src/Coordinator/Backward.antt =====
-- The cases COMPENSATION_CANDIDATE, COMPENSATION_SUCCEEDED and COMPENSATION_FAILED of
-- processSagaStep in pkg/trax/coordinator.go.
use trax.Prelude.{
  String, Bool, true, false, Option, none, some, List, [], ◌∷◌, ◌++◌, ◌==◌, ◌&&◌, ◌||◌, not, all,
  get_last?, if◌then◌else◌,
}
use trax.State.{
  SagaState, SagaStepState, step_is, execution_aborted, compensation_pending,
  compensation_candidate, compensation_running, compensation_done, compensation_blocked,
  compensated, blocked, committed,
}
use trax.Model.{SagaInstance, SagaStepInstance}
use trax.Store.{M, exit, invalidate, pure, gets, modify, ignore, time_now, ◌>>=◌, ◌>>◌}
use trax.Store.Calls.{
  update_saga_step_execution_history, get_child_saga_instances, trigger_saga_compensation,
}
use trax.Validation.{Position}
use trax.Coordinator.Transit.{
  transit_saga_to_state, transit_saga_step_to_state, transit_current_step, transaction,
  give_up_saga, current_position,
}
use trax.Coordinator.Forward.{new_log, previous_is}

-- EXECUTION_ABORTED or COMPENSATION_DONE
abbrev pub is_undone : SagaStepState → Bool
is_undone s = step_is s execution_aborted || step_is s compensation_done

-- The `switch` on the state of a child saga: is the child still to be waited for.
unfoldable pub visit_child : SagaInstance → SagaState → M Bool
visit_child child committed = do ignore (trigger_saga_compensation child.instance_id); pure true
visit_child child compensated = pure false
visit_child child other = pure true

-- The loop over the child sagas that the step has spawned; the Boolean is
-- `hasUncompensatedChildren`.
unfoldable pub visit_children : String → Bool → List SagaInstance → M Bool
unfolding visit_child
visit_children id uncompensated [] = pure uncompensated
visit_children id uncompensated (child ∷ children) =
    if child.parent_saga_step_instance_id == id
    then (do
      waiting ← visit_child child child.state
      visit_children id (uncompensated || waiting) children)
    else visit_children id uncompensated children

-- A new log for the compensation, then COMPENSATION_RUNNING.
unfoldable pub start_compensation : M Bool
unfolding new_log
start_compensation = do
  now ← time_now
  step ← gets (λ w. w.step)
  transaction do
    transit_current_step compensation_running
    modify (λ w. record w {
      step = record w.step { execution_history = step.execution_history ++ new_log now true ∷ [] };
    })
    fresh ← gets (λ w. w.step)
    update_saga_step_execution_history fresh
  pure true

unfoldable pub process_compensation_candidate : M Bool
unfolding visit_children
process_compensation_candidate = do
  p ← current_position give_up_saga
  if previous_is compensation_pending p && all (λ s. is_undone s.state) p.after
      then (do
        saga ← gets (λ w. w.saga)
        step ← gets (λ w. w.step)
        children ← get_child_saga_instances saga.instance_id
        uncompensated ← visit_children step.instance_id false children
        if uncompensated then pure false else start_compensation)
      else give_up_saga

-- COMPENSATION_DONE* EXECUTION_ABORTED*; the first argument is `seenAborted`.
unfoldable pub compensation_finished : Bool → List SagaStepState → Bool
compensation_finished seen [] = true
compensation_finished seen (s ∷ rest) =
    if step_is s execution_aborted
    then compensation_finished true rest
    else step_is s compensation_done && not seen && compensation_finished seen rest

-- The previous step becomes a candidate.
unfoldable pub release_previous : Option SagaStepInstance → M (Unit {0})
release_previous none = pure tt
release_previous (some s) =
    if step_is s.state compensation_pending
    then (do fresh ← transit_saga_step_to_state s compensation_candidate; pure tt)
    else exit invalidate

-- With no previous step all compensations are done.
unfoldable pub finish_compensation : Position → M (Unit {0})
unfolding compensation_finished
finish_compensation p = elim p.before [
  | [] ↦ do
    step ← gets (λ w. w.step)
    if step_is step.state compensation_done
          && compensation_finished false (trax.Validation.states (step ∷ p.after))
        then transit_saga_to_state compensated
        else exit invalidate
  | _ ∷ _ ↦ pure tt
]

unfoldable pub process_compensation_succeeded : M Bool
unfolding release_previous finish_compensation
process_compensation_succeeded = do
  transaction do
    p ← current_position (exit invalidate)
    release_previous (get_last? p.before)
    transit_current_step compensation_done
    finish_compensation p
  pure true

unfoldable pub process_compensation_failed : M Bool
process_compensation_failed = do
  transaction do transit_current_step compensation_blocked; transit_saga_to_state blocked
  pure false
