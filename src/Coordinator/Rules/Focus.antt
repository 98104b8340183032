-- ===== src/Coordinator/Rules/Focus.antt =====
-- Rules for the actions of a handler that holds a saga and one of its steps. The world that an
-- action leaves is known by what the handler holds in it.

use trax.Prelude.{String, ◌≡◌, refl, sym, ap, subst, ◌∙◌, Option, some, List, ◌∷◌, ◌++◌}
use trax.State.{SagaState, SagaStepState}
use trax.Model.{SagaStepInstance}
use trax.Sequence.Natural.{SameLinks}
use trax.Validation.{Position}
use trax.Store.{Tables, World, M, ◌>>=◌}
use trax.Store.Rows.{with_state, update_steps, set_step_state, set_step_history, step_row}
use trax.Store.Calls.{update_saga_step_execution_history}
use trax.Store.Outcome.{Outcome, Failed, tick, execute-Outcome}
use trax.Coordinator.Transit.{
  transit_saga_to_state, transit_saga_step_to_state, transit_current_step, current_position,
  ordered_steps,
}
use trax.Coordinator.Rules.Chain.{Chain}
use trax.Coordinator.Rules.Transitions.{
  saga_state, saga_state_set, transit_step-Outcome, transit_current-Outcome, transit_saga-Outcome,
  current_position-Outcome, ordered_steps-Outcome,
}
use trax.Coordinator.Rules.Zipper.{
  Chain-row, Chain-update_here, Chain-set_step_state, Chain-set_saga_state,
  saga_state-set_step_state, saga_state-update_steps,
}

-- The handler holds saga `g`, whose row is in the given state and whose steps are the list, and
-- the step `here`; `saved` is the open transaction.
pub record Focus (g : String) (saved : Option Tables) (state : SagaState) (w : World)
    (here : SagaStepInstance) (steps : List SagaStepInstance) : Type 0 where
  pub saved_is : w.saved ≡ saved
  pub saga_held : w.saga.instance_id ≡ g
  pub step_held : w.step ≡ here
  pub chain : Chain g w.tables steps
  pub row : saga_state g w.tables ≡ some state
  pub state_held : w.saga.state ≡ state

-- What UpdateSagaStepInstanceExecutionHistory copies.
abbrev pub with_history : SagaStepInstance → SagaStepInstance → SagaStepInstance
with_history step s = record s {
  execution_id = step.execution_id;
  execution_history = step.execution_history;
}

pub with_history-SameLinks : (step s : SagaStepInstance) → SameLinks (with_history step s) s
with_history-SameLinks step s = record {
  same_id = refl;
  same_saga = refl;
  same_previous = refl;
  same_next = refl;
}

module _ {κ} {B : Type κ} (g : String) (saved : Option Tables) (state : SagaState)
    (R : B → World → Type 0) (F : World → Type 0)
    (failed : (v : World) → v.saved ≡ saved → Failed v → F v) (w : World)
    (here : SagaStepInstance) where
  pub position_rule :
      (before : List SagaStepInstance) (after : List SagaStepInstance) (lost : M Position)
      (k : Position → M B)
      → Focus g saved state w here (before ++ here ∷ after)
      → (Focus g saved state (tick w) here (before ++ here ∷ after)
          → Outcome R F (k (record { before = before; here = here; after = after }) (tick w)))
      → Outcome R F ((current_position lost >>= k) w)
  position_rule before after lost k f h =
      current_position-Outcome R F lost before here after k w
        (subst (λ i. Chain i w.tables (before ++ here ∷ after)) (sym f.saga_held) f.chain)
        (ap (λ s. s.instance_id) f.step_held) (failed (tick w) f.saved_is)
        (h (record {
          saved_is = f.saved_is;
          saga_held = f.saga_held;
          step_held = f.step_held;
          chain = f.chain;
          row = f.row;
          state_held = f.state_held;
        }))

  pub steps_rule :
      (steps : List SagaStepInstance) (k : List SagaStepInstance → M B)
      → Focus g saved state w here steps
      → (Focus g saved state (tick w) here steps → Outcome R F (k steps (tick w)))
      → Outcome R F ((ordered_steps >>= k) w)
  steps_rule steps k f h =
      ordered_steps-Outcome R F steps k w
        (subst (λ i. Chain i w.tables steps) (sym f.saga_held) f.chain) (failed (tick w) f.saved_is)
        (h (record {
          saved_is = f.saved_is;
          saga_held = f.saga_held;
          step_held = f.step_held;
          chain = f.chain;
          row = f.row;
          state_held = f.state_held;
        }))

  -- A transition of a step of the list.
  pub step_rule :
      (target : SagaStepState) (before : List SagaStepInstance) (s : SagaStepInstance)
      (after : List SagaStepInstance) (k : SagaStepInstance → M B)
      → Focus g saved state w here (before ++ s ∷ after)
      → ((v : World)
          → Focus g saved state v here (before ++ with_state target s ∷ after)
          → Outcome R F (k (with_state target s) v))
      → Outcome R F ((transit_saga_step_to_state s target >>= k) w)
  step_rule target before s after k f h =
      transit_step-Outcome R F s target s k w (Chain-row g w.tables before s after f.chain)
        (λ t n. failed _ f.saved_is)
        (h _ (record {
          saved_is = f.saved_is;
          saga_held = f.saga_held;
          step_held = f.step_held;
          chain = Chain-set_step_state g w.tables before s after f.chain target;
          row = saga_state-set_step_state g w.tables s.instance_id target ∙ f.row;
          state_held = f.state_held;
        }))

  -- A transition of the step that is held, a copy of the step `s` of the list.
  pub current_rule :
      (target : SagaStepState) (before : List SagaStepInstance) (s : SagaStepInstance)
      (after : List SagaStepInstance) (k : Unit {0} → M B)
      → here.instance_id ≡ s.instance_id
      → Focus g saved state w here (before ++ s ∷ after)
      → ((v : World)
          → Focus g saved state v (with_state target s) (before ++ with_state target s ∷ after)
          → Outcome R F (k tt v))
      → Outcome R F ((transit_current_step target >>= k) w)
  current_rule target before s after k e f h =
      transit_current-Outcome R F target s k w
        (subst (λ i. step_row i w.tables ≡ some s) (sym held)
          (Chain-row g w.tables before s after f.chain))
        (λ t n. failed _ f.saved_is)
        (h _ (record {
          saved_is = f.saved_is;
          saga_held = f.saga_held;
          step_held = refl;
          chain =
              subst
                (λ i.
                  Chain g (set_step_state i target w.tables)
                    (before ++ with_state target s ∷ after))
                (sym held) (Chain-set_step_state g w.tables before s after f.chain target);
          row = saga_state-set_step_state g w.tables w.step.instance_id target ∙ f.row;
          state_held = f.state_held;
        }))
    where
      held : w.step.instance_id ≡ s.instance_id
      held = ap (λ s. s.instance_id) f.step_held ∙ e

  -- A transition of the saga.
  pub saga_rule :
      (target : SagaState) (steps : List SagaStepInstance) (k : Unit {0} → M B)
      → Focus g saved state w here steps
      → ((v : World) → Focus g saved target v here steps → Outcome R F (k tt v))
      → Outcome R F ((transit_saga_to_state target >>= k) w)
  saga_rule target steps k f h =
      transit_saga-Outcome R F target state k w
        (ap (λ i. saga_state i w.tables) f.saga_held ∙ f.row) (λ t n s. failed _ f.saved_is)
        (h _ (record {
          saved_is = f.saved_is;
          saga_held = f.saga_held;
          step_held = f.step_held;
          chain = Chain-set_saga_state g w.tables w.saga target steps f.chain;
          row = saga_state_set g w.saga target state w.tables f.saga_held f.row;
          state_held = refl;
        }))

  -- UpdateSagaStepInstanceExecutionHistory of a copy of a step of the list.
  pub history_rule :
      (step : SagaStepInstance) (before : List SagaStepInstance) (s : SagaStepInstance)
      (after : List SagaStepInstance) (k : Unit {0} → M B)
      → step.instance_id ≡ s.instance_id
      → Focus g saved state w here (before ++ s ∷ after)
      → ((v : World)
          → Focus g saved state v here (before ++ with_history step s ∷ after)
          → Outcome R F (k tt v))
      → Outcome R F ((update_saga_step_execution_history step >>= k) w)
  unfolding update_saga_step_execution_history set_step_history
  history_rule step before s after k e f h =
      execute-Outcome R F (set_step_history step) k w (failed (tick w) f.saved_is) (
        h _ (record {
          saved_is = f.saved_is;
          saga_held = f.saga_held;
          step_held = f.step_held;
          chain =
              subst
                (λ i.
                  Chain g (update_steps i (with_history step) w.tables)
                    (before ++ with_history step s ∷ after))
                (sym e)
                (Chain-update_here g w.tables before s after f.chain (with_history step)
                  (with_history-SameLinks step));
          row = saga_state-update_steps g w.tables step.instance_id (with_history step) ∙ f.row;
          state_held = f.state_held;
        }))
