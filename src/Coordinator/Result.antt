-- ===== src/Coordinator/Result.antt =====
-- processSagaStepExecutionResult of pkg/trax/coordinator.go. `ok` is a nil error (the message is
-- acknowledged), `stop` any other (it is delivered again).
pub mod Late
pub mod Recording
pub mod Accepted
pub mod Kept
pub mod Repeated
use trax.Prelude.{String, Bool, true, false, Option, none, some, ◌∷◌, get_last?, if◌then◌else◌}
use trax.State.{
  SagaStepState, ExecutionResultStatus, success, in_execution, execution_succeeded, execution_done,
  execution_failed, execution_aborted, execution_blocked, compensation_pending,
  compensation_candidate, compensation_succeeded, compensation_done, compensation_failed,
}
use trax.Model.{SagaStepExecutionLog, StringMap}
use trax.Store.{M, exit, invalidate, pure, gets, modify, attempt, time_now, ◌>>=◌, ◌>>◌}
use trax.Store.Calls.{
  update_saga_step_execution_history, update_saga_step_result, update_saga_step_compensation_result,
  get_saga_instance, get_saga_step_instance,
}
use trax.Coordinator.Transit.{transit_current_step, checked_transaction_if}
use trax.Coordinator.Running.{update_last_log}

-- The payload of pkg/trax/messages.go. Two fields that the coordinator does not read are left out.
pub record SagaStepExecutionResultPayload : Type 0 where
  pub saga_instance_id : String
  pub saga_step_instance_id : String
  pub status : ExecutionResultStatus
  pub execution_result : StringMap

-- The states in which a result is late or a duplicate.
unfoldable pub ignores_result : SagaStepState → Bool
ignores_result execution_succeeded = true
ignores_result execution_done = true
ignores_result execution_failed = true
ignores_result execution_aborted = true
ignores_result execution_blocked = true
ignores_result compensation_pending = true
ignores_result compensation_candidate = true
ignores_result compensation_succeeded = true
ignores_result compensation_done = true
ignores_result compensation_failed = true
ignores_result _ = false

-- The `switch` on the status: the state that follows, none while the service is still running.
unfoldable pub result_state : Bool → ExecutionResultStatus → Option SagaStepState
result_state true success = some compensation_succeeded
result_state false success = some execution_succeeded
result_state compensation in_execution = none
result_state true _ = some compensation_failed
result_state false _ = some execution_failed

-- The transition, and the goroutine that goes on with the step.
unfoldable pub apply_result : SagaStepExecutionResultPayload → Bool → M (Unit {0})
unfolding result_state
apply_result payload is_compensation = elim (result_state is_compensation payload.status) [
  | none ↦ pure tt
  | some state ↦ do
    transit_current_step state
    modify λ w. record w {
      spawned = (payload.saga_instance_id, payload.saga_step_instance_id) ∷ w.spawned;
    }
]

-- The result is stored in the field for it.
unfoldable pub store_result : StringMap → Bool → M (Unit {0})
store_result result is_compensation =
    if is_compensation
    then (do
      modify (λ w. record w { step = record w.step { compensation_result = result } })
      step ← gets (λ w. w.step)
      update_saga_step_compensation_result step)
    else (do
      modify (λ w. record w { step = record w.step { result = result } })
      step ← gets (λ w. w.step)
      update_saga_step_result step)

abbrev pub last_is_compensation : Option SagaStepExecutionLog → Bool
last_is_compensation none = false
last_is_compensation (some log) = log.is_compensation

-- What follows once both instances are read. Each `attempt` is a test of the deadline.
unfoldable pub record_result : SagaStepExecutionResultPayload → M (Unit {0})
unfolding store_result apply_result update_last_log
record_result payload = do
  attempt
  step ← gets (λ w. w.step)
  store_result payload.execution_result (last_is_compensation (get_last? step.execution_history))
  elim (get_last? step.execution_history) [
    | none ↦ exit invalidate
    | some log ↦ do
      now ← time_now
      update_last_log (λ log. record log {
        execution_result_received_ts = now;
        execution_result = payload.execution_result;
        log_conclusion_ts = now;
      })
      fresh ← gets (λ w. w.step)
      update_saga_step_execution_history fresh
      attempt
      apply_result payload log.is_compensation
      attempt
  ]

-- What runs under the deferred rollback. The result says whether the transaction is committed: a result for an unknown step or saga is
-- dropped.
unfoldable pub receive_result : SagaStepExecutionResultPayload → M Bool
unfolding record_result ignores_result
receive_result payload = do
  row ← get_saga_step_instance payload.saga_step_instance_id
  elim row [
    | none ↦ pure false
    | some step ↦ do
      modify (λ w. record w { step = step })
      attempt
      if ignores_result step.state then pure true else (do
        saga_row ← get_saga_instance payload.saga_instance_id
        elim saga_row [
          | none ↦ pure false
          | some saga ↦ do modify (λ w. record w { saga = saga }); record_result payload; pure true
        ])
  ]

-- The deadline is tested before the rollback is deferred.
unfoldable pub process_saga_step_execution_result : SagaStepExecutionResultPayload → M (Unit {0})
process_saga_step_execution_result payload = do
  committed ← checked_transaction_if (λ commit. commit) (receive_result payload)
  pure tt
