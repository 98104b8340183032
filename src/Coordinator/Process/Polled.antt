-- ===== src/Coordinator/Process/Polled.antt =====
-- A step that has succeeded, from the poll that finds it to the rows that are written.
use mathlib.Core.Option
use trax.Prelude.{
  suc, String, ◌≡◌, refl, sym, ap, subst, ◌∙◌, inl, Bool, true, false, none, some, List, [], ◌∷◌,
  ◌++◌, find?, ◌==◌,
}
use trax.State.{running, compensation_requested, execution_succeeded, saga_is}
use trax.Model.{SagaInstance, SagaStepInstance}
use trax.Store.{Tables, World, M, pure, gets, attempt, try, ◌>>=◌}
use trax.Store.Rows.{saga_row, steps_of_saga}
use trax.Store.Calls.{list_saga_step_instances}
use trax.Store.Outcome.{Outcome, tick, gets-Outcome, else-Outcome}
use trax.Sequence.{order_saga_steps_in_sequence}
use trax.Validation.{ordered_steps_valid}
use trax.Coordinator.Rules.Chain.{Chain, listed_as}
use trax.Coordinator.Rules.Zipper.{All-at}
use trax.Coordinator.Soundness.Shapes.{Forward}
use trax.Coordinator.Soundness.Held.{Becomes, Made, Stopped}
use trax.Coordinator.Soundness.Valid.{Forward-valid}
use trax.Coordinator.Soundness.Forward.{advanced, state_after, process_execution_succeeded-Made}
use trax.Coordinator.Process.Refresh.{held_world, refresh_rule}
use trax.Coordinator.Process.Rounds.{last_round}
use trax.Coordinator.Process.{
  process_step_in, process_saga_step, valid_listing, is_saga_state_valid, validate_and_process,
  is_skipped_by_polling, poll_step, is_skipped_with_mutex, process_step_with_mutex,
}

valid_listing-some :
    (id : String) (l ordered : List SagaStepInstance) (w : World)
    → order_saga_steps_in_sequence l ≡ some ordered
    → ordered_steps_valid id ordered ≡ true
    → valid_listing id (some l) w ≡ pure true w
unfolding valid_listing
valid_listing-some id [] ordered w e valid = refl
valid_listing-some id (s ∷ l) ordered w e valid = rw e (rw valid refl)

module _ {κ} {B : Type κ} (R : B → World → Type 0) (F : World → Type 0) where
  -- The steps are read, in an order that is valid.
  pub valid_rule :
      (k : Bool → M B) (w : World) (ordered : List SagaStepInstance)
      → w.env.fails w.calls ≡ false
      → order_saga_steps_in_sequence (steps_of_saga w.saga.instance_id w.tables) ≡ some ordered
      → ordered_steps_valid w.step.instance_id ordered ≡ true
      → Outcome R F (k true (tick w))
      → Outcome R F ((is_saga_state_valid >>= k) w)
  unfolding is_saga_state_valid list_saga_step_instances try ◌>>=◌ gets attempt pure
  valid_rule k w ordered read e valid h = rw read (
      rw
        (valid_listing-some w.step.instance_id (steps_of_saga w.saga.instance_id w.tables) ordered
          (tick w) e valid)
        h)

module _ (g : String) (w : World) (saga : SagaInstance) (before : List SagaStepInstance)
    (here : SagaStepInstance) (after : List SagaStepInstance) (closed : w.saved ≡ none)
    (chain : Chain g w.tables (before ++ here ∷ after)) (row : saga_row g w.tables ≡ some saga)
    (named : saga.instance_id ≡ g) (going : saga.state ≡ running) (f : Forward before here after)
    (state : here.state ≡ execution_succeeded)
    (read : w.env.fails (suc (suc (suc w.calls))) ≡ false) where
  Q : Tables → Type 0
  Q = Becomes g (state_after after) (advanced before here after)

  held : World
  held = held_world w saga here

  -- The validation and the only round.
  held_round : Outcome (λ _ v. Made Q v) (Stopped w.tables Q) (validate_and_process held)
  unfolding validate_and_process process_saga_step process_step_in held Q
  held_round =
      valid_rule (λ _ v. Made Q v) (Stopped w.tables Q) _ held (before ++ here ∷ after) read
        (subst
          (λ i.
            order_saga_steps_in_sequence (steps_of_saga i w.tables) ≡ some (before ++ here ∷ after))
          (sym named) chain.ordered)
        (Forward-valid g w.tables before here after chain f)
        (last_round (Stopped w.tables Q) (Made Q) 10 (tick held) (
          gets-Outcome R (Stopped w.tables Q) (λ w. w.step) _ (tick held)
            (subst (λ s. Outcome R (Stopped w.tables Q) (process_step_in s (tick held))) (sym state)
              (process_execution_succeeded-Made g (tick held) before here after
                (record {
                  saved_is = closed;
                  saga_held = named;
                  step_held = refl;
                  chain = chain;
                  row = ap (Option.map (λ s. s.state)) row ∙ ap some going;
                  state_held = going;
                })
                f))))
    where
      R : Bool → World → Type 0
      R again v = Made Q v × (again ≡ false)

  listed : find? (λ s. s.instance_id == here.instance_id) (steps_of_saga g w.tables) ≡ some here
  listed = All-at (λ s. listed_as g w.tables s ≡ some s) before here after chain.listed

  -- A saga is RUNNING and stands in a forward picture, the step that it has come to is
  -- EXECUTION_SUCCEEDED, no transaction is open, and the read of the steps in isSagaStateValid,
  -- the fourth call, does not fail. The polling of that step then sets it to EXECUTION_DONE and
  -- the next one to EXECUTION_CANDIDATE, or, where there is none, the saga to COMMITTED, and
  -- changes no other step. It stops only in an environment that makes some call fail, with all of
  -- this done or none of it, and no transaction is open at the end. It never marks the saga
  -- invalid, panics or loops for ever.
  pub poll_step-Made :
      Outcome
        (λ _ v. Made (Becomes g (state_after after) (advanced before here after)) v)
        (Stopped w.tables (Becomes g (state_after after) (advanced before here after)))
        (poll_step g here.instance_id w)
  unfolding poll_step is_skipped_by_polling held Q
  poll_step-Made =
      refresh_rule R F g here.instance_id _ w saga here row listed (λ n s e. (closed, e, inl refl))
        (gets-Outcome R F (λ w. w.saga) _ held
          (gets-Outcome R F (λ w. w.step) _ held
            (else-Outcome R F (saga_is saga.state compensation_requested) _ _ held
              (ap (λ s. saga_is s compensation_requested) going)
              (else-Outcome R F (is_skipped_by_polling here.state) _ _ held
                (ap is_skipped_by_polling state) held_round))))
    where
      R : Unit {0} → World → Type 0
      R _ v = Made Q v

      F : World → Type 0
      F = Stopped w.tables Q

  -- A saga is RUNNING and stands in a forward picture, the step that it has come to is
  -- EXECUTION_SUCCEEDED, no transaction is open, and the read of the steps in isSagaStateValid,
  -- the fourth call, does not fail. processStepWithMutex of that step then sets it to
  -- EXECUTION_DONE and the next one to EXECUTION_CANDIDATE, or, where there is none, the saga to
  -- COMMITTED, and changes no other step. It stops only in an environment that makes some call
  -- fail, with all of this done or none of it, and no transaction is open at the end. It never
  -- marks the saga invalid, panics or loops for ever.
  pub process_step_with_mutex-Made :
      Outcome
        (λ _ v. Made (Becomes g (state_after after) (advanced before here after)) v)
        (Stopped w.tables (Becomes g (state_after after) (advanced before here after)))
        (process_step_with_mutex g here.instance_id w)
  unfolding process_step_with_mutex is_skipped_with_mutex held Q
  process_step_with_mutex-Made =
      refresh_rule R F g here.instance_id _ w saga here row listed (λ n s e. (closed, e, inl refl))
        (gets-Outcome R F (λ w. w.step) _ held
          (else-Outcome R F (is_skipped_with_mutex here.state) _ _ held
            (ap is_skipped_with_mutex state) held_round))
    where
      R : Unit {0} → World → Type 0
      R _ v = Made Q v

      F : World → Type 0
      F = Stopped w.tables Q
