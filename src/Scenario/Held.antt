-- ===== src/Scenario/Held.antt =====
-- What the handlers hold of the saga.
use trax.Prelude.{refl, none, [], ◌∷◌}
use trax.State.{SagaState, SagaStepState}
use trax.Store.Rows.{steps_of_saga, step_row, saga_row}
use trax.Sequence.{order_saga_steps_in_sequence, first_step, follow, next_step, step_map}
use trax.Coordinator.Rules.Chain.{Chain}
use trax.Coordinator.Rules.Focus.{Focus}
use trax.Scenario.{first, second, world}

module _ (state : SagaState) (a b : SagaStepState) where
  pub Chain_example : Chain "g" (world state (first a) (second b)).tables (first a ∷ second b ∷ [])
  unfolding order_saga_steps_in_sequence first_step follow next_step step_map steps_of_saga step_row
  Chain_example = record {
    ordered = refl;
    distinct = ((refl, tt), (tt, tt));
    rows = (refl, (refl, tt));
    listed = (refl, (refl, tt));
  }

  -- The handler holds the first step.
  pub Focus_example :
      Focus "g" none state (world state (first a) (second b)) (first a) (first a ∷ second b ∷ [])
  unfolding saga_row
  Focus_example = record {
    saved_is = refl;
    saga_held = refl;
    step_held = refl;
    chain = Chain_example;
    row = refl;
    state_held = refl;
  }
