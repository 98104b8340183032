-- ===== src/Coordinator/Process/Visit.antt =====
-- The way of poll_step and of processStepWithMutex to the rounds, in an environment in which no
-- call fails.
use mathlib.Core.Option
use trax.Prelude.{
  suc, String, ◌≡◌, refl, sym, ap, subst, arith, false, true, Option, none, some, List, ◌∷◌, ◌++◌,
  find?, ◌==◌, eq_iff,
}
use trax.State.{SagaState, running, compensation_requested, saga_is}
use trax.Model.{SagaInstance, SagaStepInstance}
use trax.Store.{World, Tables}
use trax.Store.Rows.{saga_row, steps_of_saga}
use trax.Store.Outcome.{tick, gets-Outcome, else-Outcome}
use trax.Store.Quiet.{lineage, After, After-rows}
use trax.Sequence.{order_saga_steps_in_sequence}
use trax.Coordinator.Rules.Chain.{Chain, listed_as}
use trax.Coordinator.Rules.Focus.{Focus}
use trax.Coordinator.Rules.Transitions.{saga_state, find?_passes}
use trax.Coordinator.Rules.Zipper.{All-at}
use trax.Coordinator.Soundness.Shapes.{Forward, Backward}
use trax.Coordinator.Process.UndoDispatch.{Childless}
use trax.Validation.{ordered_steps_valid}
use trax.Coordinator.Soundness.Valid.{Forward-valid, Backward-valid}
use trax.Coordinator.Process.{
  follow_up, validate_and_process, is_skipped_by_polling, poll_step, is_skipped_with_mutex,
  process_step_with_mutex,
}
use trax.Coordinator.Process.Refresh.{held_world, refresh_rule}
use trax.Coordinator.Process.Polled.{valid_rule}
use trax.Coordinator.Process.Rounds.{Reliable, Surely, no_failure}

-- Saga `g` is RUNNING, its steps are valid for the step `here`, and no transaction is open. No
-- call fails.
pub record Reached (g : String) (w : World) (before : List SagaStepInstance)
    (here : SagaStepInstance) (after : List SagaStepInstance) : Type 0 where
  pub closed : w.saved ≡ none
  pub chain : Chain g w.tables (before ++ here ∷ after)
  pub row : saga_state g w.tables ≡ some running
  pub valid : ordered_steps_valid here.instance_id (before ++ here ∷ after) ≡ true
  pub reliable : Reliable w.env

-- The saga stands in a forward picture.
pub record Going (g : String) (w : World) (before : List SagaStepInstance) (here : SagaStepInstance)
    (after : List SagaStepInstance) : Type 0 where
  pub closed : w.saved ≡ none
  pub chain : Chain g w.tables (before ++ here ∷ after)
  pub row : saga_state g w.tables ≡ some running
  pub forward : Forward before here after
  pub reliable : Reliable w.env

-- The saga stands in a backward picture, and it has no child sagas.
pub record Returning (g : String) (w : World) (before : List SagaStepInstance)
    (here : SagaStepInstance) (after : List SagaStepInstance) : Type 0 where
  pub closed : w.saved ≡ none
  pub chain : Chain g w.tables (before ++ here ∷ after)
  pub row : saga_state g w.tables ≡ some running
  pub backward : Backward before here after
  pub childless : Childless g (lineage w.tables)
  pub reliable : Reliable w.env

module _ (g : String) (w : World) (before : List SagaStepInstance) (here : SagaStepInstance)
    (after : List SagaStepInstance) where
  pub Going-Reached : Going g w before here after → Reached g w before here after
  Going-Reached r = record {
    closed = r.closed;
    chain = r.chain;
    row = r.row;
    valid = Forward-valid g w.tables before here after r.chain r.forward;
    reliable = r.reliable;
  }

  pub Returning-Reached : Returning g w before here after → Reached g w before here after
  Returning-Reached r = record {
    closed = r.closed;
    chain = r.chain;
    row = r.row;
    valid = Backward-valid g w.tables before here after r.chain r.backward;
    reliable = r.reliable;
  }

-- The row of a saga whose state is known.
pub saga_at :
    (g : String) (t : Tables) (state : SagaState)
    → saga_state g t ≡ some state
    → (s : SagaInstance) × (saga_row g t ≡ some s) × (s.instance_id ≡ g) × (s.state ≡ state)
unfolding saga_row
saga_at g t state h = found (find? (λ s. s.instance_id == g) t.sagas) refl h
  where
    found :
        (o : Option SagaInstance)
        → find? (λ s. s.instance_id == g) t.sagas ≡ o
        → Option.map (λ s. s.state) o ≡ some state
        → (s : SagaInstance) × (find? (λ s. s.instance_id == g) t.sagas ≡ some s)
          × (s.instance_id ≡ g)
          × (s.state ≡ state)
    found none e h = ground (arith, h)
    found (some s) e h = (
      s,
      e,
      (eq_iff s.instance_id g).0 (find?_passes (λ s. s.instance_id == g) t.sagas s e),
      ground (arith, h),
    )

module _ (g : String) (w : World) (before : List SagaStepInstance) (here : SagaStepInstance)
    (after : List SagaStepInstance) (going : Reached g w before here after)
    (R : Unit {0} → World → Type 0) where
  -- What the handler holds when the rounds begin.
  abbrev Holding : Type 0
  Holding =
      (v : World)
      → Focus g none running v here (before ++ here ∷ after)
      → After w v
      → Surely R (follow_up 11) v

  module _ (saga : SagaInstance) (row : saga_row g w.tables ≡ some saga)
      (named : saga.instance_id ≡ g) (state : saga.state ≡ running) where
    held : World
    held = held_world w saga here

    validated : Holding → Surely R validate_and_process held
    unfolding validate_and_process held
    validated rounds =
        valid_rule R (λ _. ⊥) _ held (before ++ here ∷ after)
          (going.reliable.answers (suc (suc (suc w.calls))))
          (subst
            (λ i.
              order_saga_steps_in_sequence (steps_of_saga i w.tables)
              ≡ some (before ++ here ∷ after))
            (sym named) going.chain.ordered)
          going.valid
          (rounds (tick held)
            (record {
              saved_is = going.closed;
              saga_held = named;
              step_held = refl;
              chain = going.chain;
              row = going.row;
              state_held = state;
            })
            (After-rows w (tick held) refl (omega arith) refl refl refl))

    listed : find? (λ s. s.instance_id == here.instance_id) (steps_of_saga g w.tables) ≡ some here
    listed = All-at (λ s. listed_as g w.tables s ≡ some s) before here after going.chain.listed

    poll_of :
        is_skipped_by_polling here.state ≡ false
        → Holding
        → Surely R (poll_step g here.instance_id) w
    unfolding poll_step is_skipped_by_polling held
    poll_of taken rounds =
        refresh_rule R (λ _. ⊥) g here.instance_id _ w saga here row listed
          (λ n s e. no_failure w w going.reliable refl e)
          (gets-Outcome R (λ _. ⊥) (λ w. w.saga) _ held
            (gets-Outcome R (λ _. ⊥) (λ w. w.step) _ held
              (else-Outcome R (λ _. ⊥) (saga_is saga.state compensation_requested) _ _ held
                (ap (λ s. saga_is s compensation_requested) state)
                (else-Outcome R (λ _. ⊥) (is_skipped_by_polling here.state) _ _ held taken
                  (validated rounds)))))

    with_mutex_of :
        is_skipped_with_mutex here.state ≡ false
        → Holding
        → Surely R (process_step_with_mutex g here.instance_id) w
    unfolding process_step_with_mutex is_skipped_with_mutex held
    with_mutex_of taken rounds =
        refresh_rule R (λ _. ⊥) g here.instance_id _ w saga here row listed
          (λ n s e. no_failure w w going.reliable refl e)
          (gets-Outcome R (λ _. ⊥) (λ w. w.step) _ held
            (else-Outcome R (λ _. ⊥) (is_skipped_with_mutex here.state) _ _ held taken
              (validated rounds)))

  pub poll_rule :
      is_skipped_by_polling here.state ≡ false → Holding → Surely R (poll_step g here.instance_id) w
  poll_rule taken rounds =
      let (saga, row, named, state) = saga_at g w.tables running going.row in
      poll_of saga row named state taken rounds

  pub with_mutex_rule :
      is_skipped_with_mutex here.state ≡ false
      → Holding
      → Surely R (process_step_with_mutex g here.instance_id) w
  with_mutex_rule taken rounds =
      let (saga, row, named, state) = saga_at g w.tables running going.row in
      with_mutex_of saga row named state taken rounds
