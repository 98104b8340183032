-- ===== src/Coordinator/Quiet/Handlers.antt =====
-- The cases of processSagaStep other than those of a running step send no message.
use trax.Prelude.{refl, String, Bool, Option, none, some, List, [], ◌∷◌, ◌==◌}
use trax.State.{
  SagaState, unknown, running, committed, compensated, blocked, invalid_state,
  compensation_requested, paused, cancelled, step_is, execution_done, compensation_pending,
}
use trax.Model.{SagaInstance, SagaStepInstance, SagaStepExecutionLog}
use trax.Validation.{Position}
use trax.Store.Calls.{trigger_saga_compensation, get_child_saga_instances}
use trax.Store.Quiet.{Quiet, Quiet-if, Quiet-bind}
use trax.Store.Quiet.Calls.{update_where-Quiet}
use trax.Coordinator.Forward.{
  start_execution, candidate_with, process_execution_candidate, advance,
  process_execution_succeeded, prepare_compensation, process_execution_failed,
}
use trax.Coordinator.Backward.{
  visit_child, visit_children, start_compensation, process_compensation_candidate, release_previous,
  finish_compensation, process_compensation_succeeded, process_compensation_failed,
}
use trax.Coordinator.Quiet.{transit_step-Quiet, transition_rules}

pub start_execution-Quiet : Quiet start_execution
unfolding start_execution
start_execution-Quiet = search transition_rules depth 12

candidate_with-Quiet : (history : List SagaStepExecutionLog) → Quiet (candidate_with history)
unfolding candidate_with
candidate_with-Quiet [] = search (transition_rules, start_execution-Quiet) depth 12
candidate_with-Quiet (log ∷ history) = search transition_rules depth 12

pub process_execution_candidate-Quiet : Quiet process_execution_candidate
unfolding process_execution_candidate
process_execution_candidate-Quiet = search (transition_rules, candidate_with-Quiet) depth 12

advance-Quiet : (p : Position) → Quiet (advance p)
unfolding advance
advance-Quiet p = advance_of p.after
  where
    advance_of : (after : List SagaStepInstance) → Quiet (advance (record p { after = after }))
    advance_of [] = search transition_rules depth 12
    advance_of (s ∷ after) = search transition_rules depth 12

pub process_execution_succeeded-Quiet : Quiet process_execution_succeeded
unfolding process_execution_succeeded
process_execution_succeeded-Quiet = search (transition_rules, advance-Quiet) depth 12

prepare_compensation-Quiet : (steps : List SagaStepInstance) → Quiet (prepare_compensation steps)
unfolding prepare_compensation
prepare_compensation-Quiet [] = search transition_rules depth 12
prepare_compensation-Quiet (s ∷ steps) =
    Quiet-if (step_is s.state execution_done) _ _
      (Quiet-bind _ _ (transit_step-Quiet s _) (λ _. prepare_compensation-Quiet steps))
      (search transition_rules)

pub process_execution_failed-Quiet : Quiet process_execution_failed
unfolding process_execution_failed
process_execution_failed-Quiet = search (transition_rules, prepare_compensation-Quiet) depth 12

trigger-Quiet : (id : String) → Quiet (trigger_saga_compensation id)
unfolding trigger_saga_compensation
trigger-Quiet id =
    update_where-Quiet id committed (λ s. record s { state = compensation_requested }) (λ s. refl)

children-Quiet : (id : String) → Quiet (get_child_saga_instances id)
unfolding get_child_saga_instances
children-Quiet id = search transition_rules

visit_child-Quiet : (child : SagaInstance) (state : SagaState) → Quiet (visit_child child state)
unfolding visit_child
visit_child-Quiet child unknown = search transition_rules
visit_child-Quiet child running = search transition_rules
visit_child-Quiet child committed = search (transition_rules, trigger-Quiet)
visit_child-Quiet child compensated = search transition_rules
visit_child-Quiet child blocked = search transition_rules
visit_child-Quiet child invalid_state = search transition_rules
visit_child-Quiet child compensation_requested = search transition_rules
visit_child-Quiet child paused = search transition_rules
visit_child-Quiet child cancelled = search transition_rules

visit_children-Quiet :
    (id : String) (uncompensated : Bool) (children : List SagaInstance)
    → Quiet (visit_children id uncompensated children)
unfolding visit_children
visit_children-Quiet id uncompensated [] = search transition_rules
visit_children-Quiet id uncompensated (child ∷ children) =
    Quiet-if (child.parent_saga_step_instance_id == id) _ _
      (Quiet-bind _ _ (visit_child-Quiet child child.state)
        (λ waiting. visit_children-Quiet id _ children))
      (visit_children-Quiet id uncompensated children)

pub start_compensation-Quiet : Quiet start_compensation
unfolding start_compensation
start_compensation-Quiet = search transition_rules depth 12

pub process_compensation_candidate-Quiet : Quiet process_compensation_candidate
unfolding process_compensation_candidate
process_compensation_candidate-Quiet =
    search (transition_rules, visit_children-Quiet, start_compensation-Quiet, children-Quiet) depth
      12

release_previous-Quiet : (o : Option SagaStepInstance) → Quiet (release_previous o)
unfolding release_previous
release_previous-Quiet none = search transition_rules
release_previous-Quiet (some s) =
    Quiet-if (step_is s.state compensation_pending) _ _ (search transition_rules)
      (search transition_rules)

finish_compensation-Quiet : (p : Position) → Quiet (finish_compensation p)
unfolding finish_compensation
finish_compensation-Quiet p = finish_of p.before
  where
    finish_of :
        (before : List SagaStepInstance)
        → Quiet (finish_compensation (record p { before = before }))
    finish_of [] = search transition_rules depth 12
    finish_of (s ∷ before) = search transition_rules

pub process_compensation_succeeded-Quiet : Quiet process_compensation_succeeded
unfolding process_compensation_succeeded
process_compensation_succeeded-Quiet =
    search (transition_rules, release_previous-Quiet, finish_compensation-Quiet) depth 12

pub process_compensation_failed-Quiet : Quiet process_compensation_failed
unfolding process_compensation_failed
process_compensation_failed-Quiet = search transition_rules depth 12
