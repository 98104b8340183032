-- ===== src/Coordinator/Process/Skipped.antt =====
-- Steps that polling leaves alone.
use trax.Prelude.{String, ◌≡◌, refl, true, false, some, find?, ◌==◌}
use trax.State.{saga_is, compensation_requested}
use trax.Model.{SagaInstance, SagaStepInstance}
use trax.Store.{World, pure}
use trax.Coordinator.Process.Refresh.{held_world, refresh_rule}
use trax.Store.Outcome.{Outcome, gets-Outcome}
use trax.Store.Rows.{saga_row, steps_of_saga}
use trax.Coordinator.Process.{is_skipped_by_polling, poll_step}

-- The same rows, and the same messages and goroutines.
abbrev pub Untouched : World → World → Type 0
Untouched w v = (v.tables ≡ w.tables) × (v.published ≡ w.published) × (v.spawned ≡ w.spawned)

-- Of a saga whose row does not ask for compensation, polling leaves a step whose row is in one of
-- the skipped states as it is: no row changes, no message goes out and no goroutine is started,
-- whichever calls fail. A running step is among them, whatever its logs say.
pub skipped_step_stays :
    (saga_id step_id : String) (w : World) (saga : SagaInstance) (step : SagaStepInstance)
    → saga_row saga_id w.tables ≡ some saga
    → saga_is saga.state compensation_requested ≡ false
    → find? (λ s. s.instance_id == step_id) (steps_of_saga saga_id w.tables) ≡ some step
    → is_skipped_by_polling step.state ≡ true
    → Outcome (λ _ v. Untouched w v) (Untouched w) (poll_step saga_id step_id w)
unfolding poll_step pure
skipped_step_stays saga_id step_id w saga step row going listed skipped =
    refresh_rule R F saga_id step_id _ w saga step row listed (λ n s e. (refl, refl, refl))
      (gets-Outcome R F (λ w. w.saga) _ held
        (gets-Outcome R F (λ w. w.step) _ held (rw (going, skipped) (refl, refl, refl))))
  where
    R : Unit {0} → World → Type 0
    R _ v = Untouched w v

    F : World → Type 0
    F v = Untouched w v

    held : World
    held = held_world w saga step
