-- ===== src/Coordinator/Process.antt =====
-- processSagaStep of pkg/trax/coordinator.go, its loop, and the two functions that run the loop
-- under the mutex of the saga: the body of the goroutines of processSagaSteps, and
-- processStepWithMutex.
pub mod Refresh
pub mod Skipped
pub mod Unread
pub mod Rounds
pub mod Dispatch
pub mod Polled
pub mod UndoDispatch
pub mod Visit
pub mod Idle
use trax.Prelude.{
  Option, List, ℕ, zero, suc, String, Bool, true, false, none, some, [], ◌∷◌, ◌==◌, find?,
  if◌then◌else◌,
}
use trax.State.{
  SagaStepState, execution_pending, execution_candidate, execution_running, execution_succeeded,
  execution_done, execution_failed, execution_aborted, compensation_pending, compensation_candidate,
  compensation_running, compensation_succeeded, compensation_done, compensation_failed,
  compensation_blocked, compensation_requested, saga_is,
}
use trax.Model.{SagaStepInstance}
use trax.Store.{
  World, Exit, ok, stop, invalidate, panicked, hangs, M, pure, exit, gets, modify, attempt, found,
  ◌>>=◌, ◌>>◌,
}
use trax.Store.Calls.{get_saga_instance, list_saga_step_instances}
use trax.Sequence.{order_saga_steps_in_sequence}
use trax.Validation.{ordered_steps_valid}
use trax.Coordinator.Transit.{give_up_saga}
use trax.Coordinator.Forward.{
  process_execution_candidate, process_execution_succeeded, process_execution_failed,
}
use trax.Coordinator.Running.{process_execution_running, process_compensation_running}
use trax.Coordinator.Backward.{
  process_compensation_candidate, process_compensation_succeeded, process_compensation_failed,
}
use trax.Coordinator.Initiate.{initiate_compensation_for_committed_saga}

-- The `switch` on the state of the step.
unfoldable pub process_step_in : SagaStepState → M Bool
process_step_in execution_candidate = process_execution_candidate
process_step_in execution_running = process_execution_running
process_step_in execution_succeeded = process_execution_succeeded
process_step_in execution_failed = process_execution_failed
process_step_in compensation_candidate = process_compensation_candidate
process_step_in compensation_running = process_compensation_running
process_step_in compensation_succeeded = process_compensation_succeeded
process_step_in compensation_failed = process_compensation_failed
process_step_in execution_done = pure false
process_step_in compensation_done = pure false
process_step_in _ = give_up_saga

unfoldable pub process_saga_step : M Bool
unfolding process_step_in
process_saga_step = do step ← gets (λ w. w.step); process_step_in step.state

-- `for followUpProcessingRequired`, which `loopCounter` leaves after the given number of rounds.
unfoldable pub follow_up : ℕ → M (Unit {0})
follow_up zero = pure tt
follow_up (suc rounds) = do
  again ← process_saga_step
  λ w. elim again [ true ↦ follow_up rounds w | false ↦ (ok tt, w) ]

-- The counter is tested after each round: the round in which it reaches 11 is the last.
abbrev pub max_rounds : ℕ
max_rounds = 11

abbrev or_hang : String → Option (List SagaStepInstance) → M Bool
or_hang id none = exit hangs
or_hang id (some ordered) = pure (ordered_steps_valid id ordered)

-- The steps could not be read: false. No steps: true.
unfoldable pub valid_listing : String → Option (List SagaStepInstance) → M Bool
valid_listing id none = pure false
valid_listing id (some []) = pure true
valid_listing id (some (s ∷ steps)) = or_hang id (order_saga_steps_in_sequence (s ∷ steps))

unfoldable pub is_saga_state_valid : M Bool
unfolding valid_listing
is_saga_state_valid = do
  saga ← gets (λ w. w.saga)
  step ← gets (λ w. w.step)
  listed ← trax.Store.try (list_saga_step_instances saga.instance_id)
  valid_listing step.instance_id listed

-- Validation, then the loop.
unfoldable pub validate_and_process : M (Unit {0})
validate_and_process = do
  valid ← is_saga_state_valid
  if valid then follow_up max_rounds else give_up_saga

-- The mutex of the saga is taken, or the call fails at once; then both instances are read again.
unfoldable pub refresh : String → String → M (Unit {0})
refresh saga_id step_id = do
  attempt
  row ← get_saga_instance saga_id
  saga ← found row
  modify (λ w. record w { saga = saga })
  steps ← list_saga_step_instances saga_id
  step ← found (find? (λ s. s.instance_id == step_id) steps)
  modify (λ w. record w { step = step })

-- The states in which processSagaSteps leaves a step alone.
unfoldable pub is_skipped_by_polling : SagaStepState → Bool
is_skipped_by_polling execution_done = true
is_skipped_by_polling compensation_done = true
is_skipped_by_polling execution_aborted = true
is_skipped_by_polling compensation_blocked = true
is_skipped_by_polling execution_running = true
is_skipped_by_polling compensation_running = true
is_skipped_by_polling execution_pending = true
is_skipped_by_polling compensation_pending = true
is_skipped_by_polling _ = false

-- One goroutine of processSagaSteps.
unfoldable pub poll_step : String → String → M (Unit {0})
unfolding is_skipped_by_polling
poll_step saga_id step_id = do
  refresh saga_id step_id
  saga ← gets (λ w. w.saga)
  step ← gets (λ w. w.step)
  if saga_is saga.state compensation_requested
      then initiate_compensation_for_committed_saga
      else if is_skipped_by_polling step.state
      then pure tt
      else validate_and_process

-- The states in which processStepWithMutex leaves a step alone.
unfoldable pub is_skipped_with_mutex : SagaStepState → Bool
is_skipped_with_mutex execution_done = true
is_skipped_with_mutex compensation_done = true
is_skipped_with_mutex execution_running = true
is_skipped_with_mutex compensation_running = true
is_skipped_with_mutex _ = false

unfoldable pub process_step_with_mutex : String → String → M (Unit {0})
unfolding is_skipped_with_mutex
process_step_with_mutex saga_id step_id = do
  refresh saga_id step_id
  step ← gets (λ w. w.step)
  if is_skipped_with_mutex step.state then pure tt else validate_and_process
