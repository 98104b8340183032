-- ===== src/Store/Calls.antt =====
-- The methods of the store that the coordinator calls, as actions that may fail, and the
-- transaction of a handler (pkg/trax/store_psql.go, with the deferred functions of
-- pkg/trax/coordinator.go that end it).
use trax.Prelude.{suc, String, Bool, Option, none, some, List, if◌then◌else◌}
use trax.State.{SagaState, SagaStepState, committed, compensation_requested}
use trax.Model.{SagaInstance, SagaStepInstance}
use trax.Store.{
  Tables, World, Exit, ok, stop, invalidate, panicked, hangs, M, pure, exit, gets, modify, attempt,
  ◌>>=◌, ◌>>◌,
}
use trax.Store.Rows.{
  set_saga_state, set_step_state, set_step_result, set_step_compensation_result, set_step_history,
  saga_row, step_row, steps_of_saga, child_sagas, update_if_state,
}

abbrev pub on_tables : (Tables → Tables) → World → World
on_tables f w = record w { tables = f w.tables }

-- A statement that reads: it fails, or returns what `f` finds in the tables.
unfoldable pub query {ℓ} : {A : Type ℓ} → (Tables → A) → M A
query f = do attempt; gets (λ w. f w.tables)

-- A statement that writes.
unfoldable pub execute : (Tables → Tables) → M (Unit {0})
execute f = do attempt; modify (on_tables f)

-- The new state also goes to the saga that the handler holds.
unfoldable pub update_saga_state : SagaState → M (Unit {0})
unfolding execute
update_saga_state state = do
  saga ← gets (λ w. w.saga)
  execute (set_saga_state saga state)
  modify (λ w. record w { saga = record w.saga { state = state } })

unfoldable pub update_saga_step_state : SagaStepInstance → SagaStepState → M (Unit {0})
unfolding execute
update_saga_step_state step state = execute (set_step_state step.instance_id state)

unfoldable pub update_saga_step_result : SagaStepInstance → M (Unit {0})
unfolding execute
update_saga_step_result step = execute (set_step_result step)

unfoldable pub update_saga_step_compensation_result : SagaStepInstance → M (Unit {0})
unfolding execute
update_saga_step_compensation_result step = execute (set_step_compensation_result step)

unfoldable pub update_saga_step_execution_history : SagaStepInstance → M (Unit {0})
unfolding execute
update_saga_step_execution_history step = execute (set_step_history step)

-- `none` is ErrSagaInstanceNotFound.
unfoldable pub get_saga_instance : String → M (Option SagaInstance)
unfolding query
get_saga_instance id = query (saga_row id)

-- `none` is ErrSagaStepInstanceNotFound.
unfoldable pub get_saga_step_instance : String → M (Option SagaStepInstance)
unfolding query
get_saga_step_instance id = query (step_row id)

unfoldable pub list_saga_step_instances : String → M (List SagaStepInstance)
unfolding query
list_saga_step_instances id = query (steps_of_saga id)

unfoldable pub get_child_saga_instances : String → M (List SagaInstance)
unfolding query
get_child_saga_instances id = query (child_sagas id)

-- A statement that must affect a row, or is refused by a constraint.
abbrev pub affected : Option Tables → M (Unit {0})
affected none = exit stop
affected (some t) = modify (λ w. record w { tables = t })

unfoldable pub trigger_saga_compensation : String → M (Unit {0})
unfolding query
trigger_saga_compensation id = do
  t ← query (update_if_state id committed (λ s. record s { state = compensation_requested }))
  affected t

-- A second transaction of one goroutine is refused.
unfoldable pub begin_unless_open : Option Tables → M (Unit {0})
begin_unless_open none = attempt >> modify (λ w. record w { saved = some w.tables })
begin_unless_open (some t) = exit stop

unfoldable pub begin_transaction : M (Unit {0})
unfolding begin_unless_open
begin_transaction w = begin_unless_open w.saved w

-- A commit that fails may have taken effect all the same.
abbrev pub commit_open : Option Tables → M (Unit {0})
commit_open none w = (stop, w)
commit_open (some t) w =
    let after = record w { saved = none; calls = suc w.calls } in
    if w.env.fails w.calls
    then (stop, (if w.env.lands w.calls then after else record after { tables = t }))
    else (ok tt, after)

unfoldable pub commit_transaction : M (Unit {0})
commit_transaction w = commit_open w.saved w

-- What was not committed is not visible, also when the rollback itself reports an error.
unfoldable pub rollback_transaction : World → World
rollback_transaction w = elim w.saved [ none ↦ w | some t ↦ record w { saved = none; tables = t } ]

-- The end of a transaction whose body has run. With `invalidate`, `mark` runs after the rollback.
unfoldable pub finish_transaction {ℓ} :
    {A : Type ℓ} → (A → Bool) → M (Unit {0}) → Exit A × World → Exit A × World
finish_transaction keeps mark (ok a, w) =
    if keeps a then (do commit_transaction; pure a) w else (ok a, rollback_transaction w)
finish_transaction keeps mark (stop, w) = (stop, rollback_transaction w)
finish_transaction keeps mark (invalidate, w) = (do mark; exit stop) (rollback_transaction w)
finish_transaction keeps mark (panicked, w) = (panicked, rollback_transaction w)
finish_transaction keeps mark (hangs, w) = (hangs, w)
