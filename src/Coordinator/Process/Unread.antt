-- ===== src/Coordinator/Process/Unread.antt =====
-- A failed read of the steps in isSagaStateValid.
use mathlib.Core.Option
use trax.Prelude.{suc, ◌≡◌, true, false, Option, some, arith}
use trax.State.{SagaState, invalid_state}
use trax.Model.{SagaInstance}
use trax.Store.{World, pure, exit, gets, modify, attempt, ignore, try, ◌>>=◌}
use trax.Store.Rows.{saga_row}
use trax.Store.Laws.{saga_row-set_saga_state}
use trax.Store.Calls.{list_saga_step_instances, update_saga_state, get_saga_instance}
use trax.Coordinator.Transit.{transit_saga_to_state, give_up_saga}
use trax.Coordinator.Rules.Transitions.{saga_state, saga_state-set_saga_state}
use trax.Coordinator.Process.{valid_listing, is_saga_state_valid, validate_and_process}

-- The saga that is held has a row, and three calls are made: the first, which reads the steps,
-- fails, and the other two do not. Then the row is set to INVALID_STATE, whatever the steps are.
pub unread_steps_invalidate :
    (w : World) (old : SagaState)
    → saga_state w.saga.instance_id w.tables ≡ some old
    → w.env.fails w.calls ≡ true
    → w.env.fails (suc w.calls) ≡ false
    → w.env.fails (suc (suc w.calls)) ≡ false
    → saga_state w.saga.instance_id (validate_and_process w).1.tables ≡ some invalid_state
unfolding validate_and_process is_saga_state_valid valid_listing list_saga_step_instances try
    give_up_saga ignore transit_saga_to_state update_saga_state get_saga_instance ◌>>=◌ attempt gets
    modify pure exit
unread_steps_invalidate w old row a b c =
    let (r, q) = row_of (saga_row w.saga.instance_id w.tables) row in
    rw a (
      rw b (
        rw c (
          rw (saga_row-set_saga_state w.saga invalid_state w.tables)
            (rw q (saga_state-set_saga_state w.saga invalid_state w.tables {old = old} row)))))
  where
    row_of :
        (o : Option SagaInstance)
        → Option.map (λ s. s.state) o ≡ some old
        → (r : SagaInstance) × (o ≡ some r)
    row_of o p = ground arith
