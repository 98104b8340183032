-- ===== src/Store/Rows.antt =====
-- The statements of pkg/trax/store_psql.go on the rows of one cluster's tables. `instance_id` is
-- the primary key of both tables. An UPDATE that meets no row changes nothing and is no error.
use trax.Prelude.{String, Bool, Option, List, map, keep, find?, ◌==◌, ◌&&◌, if◌then◌else◌}
use trax.State.{SagaState, SagaStepState, saga_is}
use trax.Model.{SagaInstance, SagaStepInstance}
use trax.Store.{Tables}

-- `UPDATE … WHERE instance_id = id`
abbrev pub at_id :
    String → (SagaStepInstance → SagaStepInstance) → SagaStepInstance → SagaStepInstance
at_id id f s = if s.instance_id == id then f s else s

unfoldable pub update_steps : String → (SagaStepInstance → SagaStepInstance) → Tables → Tables
update_steps id f t = record t { steps = map (at_id id f) t.steps }

unfoldable pub update_sagas : String → (SagaInstance → SagaInstance) → Tables → Tables
update_sagas id f t = record t { sagas = map (λ s. if s.instance_id == id then f s else s) t.sagas }

-- UpdateSagaState
abbrev pub with_saga_state : SagaInstance → SagaState → SagaInstance → SagaInstance
with_saga_state saga state s = record s {
  state = state;
  compensation_reason = saga.compensation_reason;
}

unfoldable pub set_saga_state : SagaInstance → SagaState → Tables → Tables
unfolding update_sagas
set_saga_state saga state = update_sagas saga.instance_id (with_saga_state saga state)

-- UpdateSagaStepState
abbrev pub with_state : SagaStepState → SagaStepInstance → SagaStepInstance
with_state state s = record s { state = state }

unfoldable pub set_step_state : String → SagaStepState → Tables → Tables
unfolding update_steps
set_step_state id state = update_steps id (with_state state)

-- UpdateSagaStepResult
unfoldable pub set_step_result : SagaStepInstance → Tables → Tables
unfolding update_steps
set_step_result step = update_steps step.instance_id λ s. record s { result = step.result }

-- UpdateSagaStepCompensationResult
unfoldable pub set_step_compensation_result : SagaStepInstance → Tables → Tables
unfolding update_steps
set_step_compensation_result step =
    update_steps step.instance_id λ s. record s { compensation_result = step.compensation_result }

-- UpdateSagaStepInstanceExecutionHistory
unfoldable pub set_step_history : SagaStepInstance → Tables → Tables
unfolding update_steps
set_step_history step =
    update_steps step.instance_id
      λ s. record s { execution_id = step.execution_id; execution_history = step.execution_history }

-- GetSagaInstance
unfoldable pub saga_row : String → Tables → Option SagaInstance
saga_row id t = find? (λ s. s.instance_id == id) t.sagas

-- GetSagaStepInstance
unfoldable pub step_row : String → Tables → Option SagaStepInstance
step_row id t = find? (λ s. s.instance_id == id) t.steps

-- ListSagaStepInstancesBySagaInstanceId
unfoldable pub steps_of_saga : String → Tables → List SagaStepInstance
steps_of_saga id t = keep (λ s. s.saga_instance_id == id) t.steps

-- GetChildSagaInstances
unfoldable pub child_sagas : String → Tables → List SagaInstance
child_sagas id t = keep (λ s. s.parent_saga_instance_id == id) t.sagas

-- A saga with the given id and state, the `WHERE` of the two conditional updates.
abbrev pub in_state : String → SagaState → SagaInstance → Bool
in_state id state s = s.instance_id == id && saga_is s.state state

-- `UPDATE … WHERE instance_id = id AND state = from`; `none` when it affects no row.
unfoldable pub update_if_state :
    String → SagaState → (SagaInstance → SagaInstance) → Tables → Option Tables
update_if_state id state f t = elim (find? (in_state id state) t.sagas) [
  | Option.none ↦ Option.none
  | Option.some _ ↦
      Option.some (record t { sagas = map (λ s. if in_state id state s then f s else s) t.sagas })
]
