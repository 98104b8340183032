-- ===== src/Coordinator/Course.antt =====
-- The course of a saga as the goroutines of pkg/trax/coordinator.go drive it: the polling finds a
-- candidate, the answer of its executor arrives, and the goroutine that the answer starts goes on.
pub mod Stages
pub mod Passed
pub mod Undoing
pub mod Returned
pub mod Compensated
pub mod RolledBack
pub mod Committed
use trax.Prelude.{List, [], ◌∷◌}
use trax.Store.{M, pure, ◌>>=◌, ◌>>◌}
use trax.Coordinator.Process.{poll_step, process_step_with_mutex}
use trax.Coordinator.Result.{SagaStepExecutionResultPayload, process_saga_step_execution_result}

-- The answer arrives, and the goroutine that it starts goes on.
abbrev pub resume : SagaStepExecutionResultPayload → M (Unit {0})
resume answer = do
  process_saga_step_execution_result answer
  process_step_with_mutex answer.saga_instance_id answer.saga_step_instance_id

-- One step.
unfoldable pub step_course : SagaStepExecutionResultPayload → M (Unit {0})
step_course answer = do
  poll_step answer.saga_instance_id answer.saga_step_instance_id
  resume answer

-- One step after the other.
unfoldable pub course : List SagaStepExecutionResultPayload → M (Unit {0})
unfolding step_course
course [] = pure tt
course (answer ∷ answers) = do step_course answer; course answers

-- A step whose executor answers with a failure, its compensation, and those of the steps before it.
unfoldable pub rollback_course :
    SagaStepExecutionResultPayload
    → SagaStepExecutionResultPayload
    → List SagaStepExecutionResultPayload
    → M (Unit {0})
unfolding course
rollback_course failure undone answers = do step_course failure; resume undone; course answers
