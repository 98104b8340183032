-- ===== src/Coordinator/Quiet/Rounds.antt =====
-- Which rounds of processSagaStep send a message, and that the handler of results sends none.
use trax.Prelude.{refl, ◌≡◌, arith, get_last?, Bool, true, false}
use trax.State.{
  SagaStepState, unknown, execution_pending, execution_candidate, execution_running,
  execution_succeeded, execution_done, execution_failed, execution_aborted, execution_blocked,
  compensation_pending, compensation_candidate, compensation_running, compensation_succeeded,
  compensation_done, compensation_failed, compensation_blocked,
}
use trax.Model.{SagaStepInstance, SagaStepExecutionLog, StringMap}
use trax.Store.{World, ◌>>=◌, ◌>>◌}
use trax.Store.Rows.{update_steps, set_step_result, set_step_compensation_result}
use trax.Store.Calls.{update_saga_step_result, update_saga_step_compensation_result}
use trax.Store.Quiet.{
  Quiet, Quiet-if, Quiet-bind, Quiet-gets, Quiet-pure, Quiet-exit, Quiet-attempt, Quiet-option,
}
use trax.Store.Quiet.Calls.{
  execute-Quiet, get_saga_instance-Quiet, get_saga_step_instance-Quiet, call_rules,
}
use trax.Coordinator.Running.{update_last_log}
use trax.Coordinator.Process.{process_step_in, process_saga_step}
use trax.Coordinator.Result.{
  SagaStepExecutionResultPayload, ignores_result, result_state, apply_result, store_result,
  record_result, receive_result, process_saga_step_execution_result,
}
use trax.Coordinator.Quiet.{checked_transaction_if-Quiet, transition_rules, give_up_saga-Quiet}
use trax.Coordinator.Quiet.Handlers.{
  process_execution_candidate-Quiet, process_execution_succeeded-Quiet,
  process_execution_failed-Quiet, process_compensation_candidate-Quiet,
  process_compensation_succeeded-Quiet, process_compensation_failed-Quiet,
}

-- A step in one of these states waits for its executor.
abbrev pub awaits_executor : SagaStepState → Bool
awaits_executor execution_running = true
awaits_executor compensation_running = true
awaits_executor _ = false

process_step_in-Quiet :
    (state : SagaStepState) → awaits_executor state ≡ false → Quiet (process_step_in state)
unfolding process_step_in
process_step_in-Quiet execution_candidate h = process_execution_candidate-Quiet
process_step_in-Quiet execution_running h = ground (arith, h)
process_step_in-Quiet execution_succeeded h = process_execution_succeeded-Quiet
process_step_in-Quiet execution_failed h = process_execution_failed-Quiet
process_step_in-Quiet compensation_candidate h = process_compensation_candidate-Quiet
process_step_in-Quiet compensation_running h = ground (arith, h)
process_step_in-Quiet compensation_succeeded h = process_compensation_succeeded-Quiet
process_step_in-Quiet compensation_failed h = process_compensation_failed-Quiet
process_step_in-Quiet execution_done h = search call_rules
process_step_in-Quiet compensation_done h = search call_rules
process_step_in-Quiet unknown h = give_up_saga-Quiet
process_step_in-Quiet execution_pending h = give_up_saga-Quiet
process_step_in-Quiet execution_aborted h = give_up_saga-Quiet
process_step_in-Quiet execution_blocked h = give_up_saga-Quiet
process_step_in-Quiet compensation_pending h = give_up_saga-Quiet
process_step_in-Quiet compensation_blocked h = give_up_saga-Quiet

-- A round of processSagaStep whose step is neither EXECUTION_RUNNING nor COMPENSATION_RUNNING
-- sends no message, whichever calls fail and however the round ends.
pub process_saga_step-Silent :
    (w : World)
    → awaits_executor w.step.state ≡ false
    → (process_saga_step w).1.published ≡ w.published
unfolding process_saga_step ◌>>=◌ trax.Store.gets
process_saga_step-Silent w h = ((process_step_in-Quiet w.step.state h).at w).same_published

update_result-Quiet : (step : SagaStepInstance) → Quiet (update_saga_step_result step)
unfolding update_saga_step_result set_step_result update_steps
update_result-Quiet step = execute-Quiet _ (λ t. refl)

update_compensation-Quiet :
    (step : SagaStepInstance) → Quiet (update_saga_step_compensation_result step)
unfolding update_saga_step_compensation_result set_step_compensation_result update_steps
update_compensation-Quiet step = execute-Quiet _ (λ t. refl)

store_result-Quiet :
    (result : StringMap) (is_compensation : Bool) → Quiet (store_result result is_compensation)
unfolding store_result
store_result-Quiet result true = search (call_rules, update_compensation-Quiet)
store_result-Quiet result false = search (call_rules, update_result-Quiet)

update_last_log-Quiet :
    (f : SagaStepExecutionLog → SagaStepExecutionLog) → Quiet (update_last_log f)
unfolding update_last_log
update_last_log-Quiet f = search call_rules

apply_result-Quiet :
    (payload : SagaStepExecutionResultPayload) (is_compensation : Bool)
    → Quiet (apply_result payload is_compensation)
unfolding apply_result
apply_result-Quiet payload is_compensation =
    Quiet-option _ _ (result_state is_compensation payload.status) (search call_rules)
      (λ state. search transition_rules)

record_result-Quiet : (payload : SagaStepExecutionResultPayload) → Quiet (record_result payload)
unfolding record_result
record_result-Quiet payload = Quiet-bind _ _ Quiet-attempt (λ _.
    Quiet-bind _ _ (Quiet-gets _) (λ step. Quiet-bind _ _ (store_result-Quiet _ _) (λ _.
      Quiet-option _ _ (get_last? step.execution_history) (Quiet-exit _)
        (λ log. search (transition_rules, update_last_log-Quiet, apply_result-Quiet) depth 16))))

receive_result-Quiet : (payload : SagaStepExecutionResultPayload) → Quiet (receive_result payload)
unfolding receive_result
receive_result-Quiet payload = Quiet-bind _ _ (get_saga_step_instance-Quiet _) (λ row.
    Quiet-option _ _ row (search call_rules) (λ step. Quiet-bind _ _ (search call_rules) (λ _.
      Quiet-bind _ _ Quiet-attempt (λ _.
        Quiet-if (ignores_result step.state) _ _ (search call_rules) (
          Quiet-bind _ _ (get_saga_instance-Quiet _) (λ saga_row.
            Quiet-option _ _ saga_row (search call_rules)
              (λ saga. search (call_rules, record_result-Quiet))))))))

pub process_result-Quiet :
    (payload : SagaStepExecutionResultPayload) → Quiet (process_saga_step_execution_result payload)
unfolding process_saga_step_execution_result
process_result-Quiet payload =
    Quiet-bind _ _
      (checked_transaction_if-Quiet (λ commit. commit) _ (receive_result-Quiet payload))
      (λ commit. Quiet-pure tt)
