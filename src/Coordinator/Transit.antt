-- ===== src/Coordinator/Transit.antt =====
-- transitSagaToState and transitSagaStepToState of pkg/trax/coordinator.go, and the transaction
-- that the cases of processSagaStep share.
use trax.Prelude.{Bool, true, Option, none, some, List, if◌then◌else◌}
use trax.State.{SagaState, SagaStepState, invalid_state, saga_is, step_is}
use trax.Model.{SagaInstance, SagaStepInstance}
use trax.Store.{
  World, Exit, ok, stop, invalidate, panicked, hangs, M, pure, exit, gets, modify, attempt,
  continue, ◌>>=◌, ◌>>◌,
}
use trax.Store.Calls.{
  update_saga_state, update_saga_step_state, get_saga_instance, get_saga_step_instance,
  list_saga_step_instances, begin_transaction, commit_transaction, rollback_transaction,
  finish_transaction,
}
use trax.Sequence.{order_saga_steps_in_sequence}
use trax.Validation.{Position, locate}

unfoldable pub confirm_saga : SagaState → Option SagaInstance → M (Unit {0})
confirm_saga target none = exit stop
confirm_saga target (some s) = if saga_is s.state target then pure tt else exit panicked

unfoldable pub transit_saga_to_state : SagaState → M (Unit {0})
unfolding confirm_saga
transit_saga_to_state target = do
  update_saga_state target
  saga ← gets (λ w. w.saga)
  row ← get_saga_instance saga.instance_id
  confirm_saga target row

unfoldable pub confirm_step : SagaStepState → Option SagaStepInstance → M SagaStepInstance
confirm_step target none = exit stop
confirm_step target (some s) = if step_is s.state target then pure s else exit panicked

-- The result is the row that was read back. The callers drop the instance that they passed when
-- this fails, so its state is left as it was.
unfoldable pub transit_saga_step_to_state : SagaStepInstance → SagaStepState → M SagaStepInstance
unfolding confirm_step
transit_saga_step_to_state step target = do
  update_saga_step_state step target
  row ← get_saga_step_instance step.instance_id
  confirm_step target row

-- The same of the step that is processed.
unfoldable pub transit_current_step : SagaStepState → M (Unit {0})
transit_current_step target = do
  step ← gets (λ w. w.step)
  fresh ← transit_saga_step_to_state step target
  modify (λ w. record w { step = fresh })

-- The same of each of some other steps.
unfoldable pub transit_each : List SagaStepInstance → SagaStepState → M (Unit {0})
transit_each List.[] target = pure tt
transit_each (List.◌∷◌ s steps) target = do
  fresh ← transit_saga_step_to_state s target
  transit_each steps target

-- A run of `m` after which the transaction, if `m` failed, is rolled back.
abbrev pub or_rollback : Exit (Unit {0}) × World → Exit (Unit {0}) × World
or_rollback (ok a, w) = (ok a, w)
or_rollback (e, w) = (e, rollback_transaction w)

-- The part of the deferred functions that marks the saga invalid, in a new transaction.
unfoldable pub mark_saga_invalid : M (Unit {0})
mark_saga_invalid = do
  begin_transaction
  λ w. or_rollback ((do transit_saga_to_state invalid_state; commit_transaction) w)

-- BeginTransaction, a body with its deferred function, and CommitTransaction where `keeps` says
-- that the body's result is committed.
unfoldable pub transaction_if {ℓ} : {A : Type ℓ} → (A → Bool) → M A → M A
transaction_if keeps body = do
  begin_transaction
  λ w. finish_transaction keeps mark_saga_invalid (body w)

-- The same with a test of the deadline between BeginTransaction and the deferred function: where it
-- fails the handler returns with the transaction still open.
unfoldable pub checked_transaction_if {ℓ} : {A : Type ℓ} → (A → Bool) → M A → M A
checked_transaction_if keeps body = do
  begin_transaction
  attempt
  λ w. finish_transaction keeps mark_saga_invalid (body w)

unfoldable pub transaction {ℓ} : {A : Type ℓ} → M A → M A
unfolding transaction_if
transaction body = transaction_if (λ a. true) body

abbrev pub ordered_or_hang : Option (List SagaStepInstance) → M (List SagaStepInstance)
ordered_or_hang none = exit hangs
ordered_or_hang (some steps) = pure steps

-- ListSagaStepInstancesBySagaInstanceId and OrderSagaStepsInSequence
unfoldable pub ordered_steps : M (List SagaStepInstance)
ordered_steps = do
  saga ← gets (λ w. w.saga)
  steps ← list_saga_step_instances saga.instance_id
  ordered_or_hang (order_saga_steps_in_sequence steps)

-- `c.transitSagaToInvalidState(…)` with its error dropped, and `return`.
unfoldable pub give_up_saga {ℓ} : {A : Type ℓ} → M A
give_up_saga = do trax.Store.ignore (transit_saga_to_state invalid_state); exit stop

abbrev pub position_or : M Position → Option Position → M Position
position_or lost none = lost
position_or lost (some p) = pure p

-- The index of the step that is processed. Where it is missing, `lost` ends the handler.
unfoldable pub current_position : M Position → M Position
current_position lost = do
  ordered ← ordered_steps
  step ← gets (λ w. w.step)
  position_or lost (locate step.instance_id ordered)
