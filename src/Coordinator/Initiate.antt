-- ===== src/Coordinator/Initiate.antt =====
-- initiateCompensationForCommittedSaga of pkg/trax/coordinator.go.
use Prim.Native.String.{◌++◌}
use trax.Prelude.{String, Option, none, some, List, [], ◌∷◌, ◌==◌, all, get_last?, if◌then◌else◌}
use trax.State.{step_is, execution_done, compensation_pending, compensation_candidate, running}
use trax.Model.{SagaInstance, SagaStepInstance}
use trax.Store.{M, pure, gets, modify, try, ◌>>=◌, ◌>>◌}
use trax.Store.Calls.{update_saga_state, get_saga_instance}
use trax.Coordinator.Transit.{
  transit_saga_step_to_state, transit_each, transaction, ordered_steps, give_up_saga,
}

-- All but the last.
unfoldable pub init {ℓ} : {A : Type ℓ} → List A → List A
init [] = []
init (x ∷ []) = []
init (x ∷ y ∷ xs) = x ∷ init (y ∷ xs)

-- The parent's own reason is told where it could be read and there is one.
unfoldable pub cascading_reason : String → Option (Option SagaInstance) → String
cascading_reason parent (some (some s)) =
    if s.compensation_reason == ""
    then "cascading from parent saga '" ++ (parent ++ "'")
    else "cascading from parent saga '" ++ (parent ++ ("'\n  ← " ++ s.compensation_reason))
cascading_reason parent _ = "cascading from parent saga '" ++ (parent ++ "'")

unfoldable pub requested_reason : M String
unfolding cascading_reason
requested_reason = do
  saga ← gets (λ w. w.saga)
  if saga.parent_saga_instance_id == ""
      then pure "compensation requested for committed saga"
      else (do
        parent ← try (get_saga_instance saga.parent_saga_instance_id)
        pure (cascading_reason saga.parent_saga_instance_id parent))

unfoldable pub start_backward_walk : SagaStepInstance → List SagaStepInstance → M (Unit {0})
start_backward_walk last previous = do
  reason ← requested_reason
  modify (λ w. record w { saga = record w.saga { compensation_reason = reason } })
  fresh ← transit_saga_step_to_state last compensation_candidate
  transit_each previous compensation_pending
  update_saga_state running

-- A saga with no steps at all is marked invalid, as one with a step that is not done.
unfoldable pub walk_back : Option SagaStepInstance → List SagaStepInstance → M (Unit {0})
walk_back none ordered = give_up_saga
walk_back (some last) ordered =
    if all (λ s. step_is s.state execution_done) ordered
    then transaction (start_backward_walk last (init ordered))
    else give_up_saga

unfoldable pub initiate_compensation_for_committed_saga : M (Unit {0})
unfolding walk_back
initiate_compensation_for_committed_saga = do
  ordered ← ordered_steps
  walk_back (get_last? ordered) ordered
