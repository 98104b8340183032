-- ===== src/Scenario/Witnesses.antt =====
-- The other theorems at concrete sagas.
use trax.Sequence.Order.{order_saga_steps_in_sequence-Linked}
use mathlib.Core.List.{Permᴰ}
use trax.Coordinator.Process.Polled.{poll_step-Made}
use trax.Coordinator.Process.Unread.{unread_steps_invalidate}
use trax.Coordinator.Rules.Transitions.{saga_state}
use trax.Prelude.{some, eqb, ◌≡◌, ◌↔◌, refl, inl, true, [], ◌∷◌}
use trax.State.{
  invalid_state, running, compensation_requested, execution_pending, execution_candidate,
  execution_running, execution_succeeded, execution_done, execution_aborted, compensation_pending,
  compensation_candidate, compensation_done, compensation_failed,
}
use trax.Store.{World}
use trax.Store.Rows.{saga_row}
use trax.Store.Outcome.{Outcome}
use trax.Sequence.{order_saga_steps_in_sequence}
use trax.Validation.{
  is_forward, is_compensation_state, validate_non_compensating_mode, validate_compensating_mode,
  ordered_steps_valid,
}
use trax.Validation.Patterns.{
  Each, PendingButOne, CompensatedThenAborted, validate_non_compensating_mode_iff,
  validate_compensating_mode_iff,
}
use trax.Coordinator.Initiate.{initiate_compensation_for_committed_saga}
use trax.Coordinator.Process.{validate_and_process, poll_step}
use trax.Coordinator.Soundness.Held.{Becomes, Made, Stopped}
use trax.Coordinator.Soundness.Initiate.{initiate_compensation_for_committed_saga-Made}
use trax.Coordinator.Soundness.Valid.{Forward-valid, Backward-valid}
use trax.Scenario.{calm, first, second, saga, world}
use trax.Scenario.Held.{Chain_example, Focus_example}

Forward-valid_example :
    ordered_steps_valid "1" (first execution_succeeded ∷ second execution_pending ∷ []) ≡ true
Forward-valid_example =
    Forward-valid "g" (world running (first execution_succeeded) (second execution_pending)).tables
      [] (first execution_succeeded) (second execution_pending ∷ [])
      (Chain_example running execution_succeeded execution_pending)
      (record { done = tt; active = tt; waiting = ((refl, refl), tt) })

Backward-valid_example :
    ordered_steps_valid "1" (first compensation_candidate ∷ second compensation_done ∷ []) ≡ true
Backward-valid_example =
    Backward-valid "g"
      (world running (first compensation_candidate) (second compensation_done)).tables []
      (first compensation_candidate) (second compensation_done ∷ [])
      (Chain_example running compensation_candidate compensation_done)
      (record { pending = tt; active = tt; undone = inl (refl, tt) })

validate_non_compensating_mode_iff_example :
    (validate_non_compensating_mode (execution_done ∷ []) execution_running (execution_pending ∷ [])
      ≡ true)
    ↔ ((is_forward execution_running ≡ true)
        × Each execution_done (execution_done ∷ [])
        × PendingButOne (execution_pending ∷ []))
validate_non_compensating_mode_iff_example =
    validate_non_compensating_mode_iff (execution_done ∷ []) execution_running
      (execution_pending ∷ [])

validate_compensating_mode_iff_example :
    (validate_compensating_mode
        (compensation_pending ∷ [])
        compensation_failed
        (compensation_done ∷ execution_aborted ∷ [])
      ≡ true)
    ↔ ((is_compensation_state compensation_failed ≡ true)
        × Each compensation_pending (compensation_pending ∷ [])
        × CompensatedThenAborted (compensation_done ∷ execution_aborted ∷ []))
validate_compensating_mode_iff_example =
    validate_compensating_mode_iff (compensation_pending ∷ []) compensation_failed
      (compensation_done ∷ execution_aborted ∷ [])

order_saga_steps_in_sequence-Linked_example :
    order_saga_steps_in_sequence (second execution_pending ∷ first execution_done ∷ [])
    ≡ some (first execution_done ∷ second execution_pending ∷ [])
order_saga_steps_in_sequence-Linked_example =
    order_saga_steps_in_sequence-Linked (first execution_done ∷ second execution_pending ∷ [])
      (second execution_pending ∷ first execution_done ∷ []) (refl, (refl, refl, refl, refl))
      ((refl, tt), (tt, tt)) (Permᴰ.swap refl refl)

-- The first step has succeeded, and the second call fails.
abbrev flaky : World
flaky = record (world running (first execution_succeeded) (second execution_pending)) {
  env = record calm { fails = λ n. eqb n 1 };
}

unread_steps_invalidate_example :
    saga_state "g" (validate_and_process flaky).1.tables ≡ some invalid_state
unfolding saga_row
unread_steps_invalidate_example = unread_steps_invalidate flaky running refl refl refl refl

initiate_compensation_for_committed_saga-Made_example :
    Outcome
      (λ _ v.
        Made
          (Becomes "g" running (first compensation_pending ∷ second compensation_candidate ∷ []))
          v)
      (Stopped
        (world compensation_requested (first execution_done) (second execution_done)).tables
        (Becomes "g" running (first compensation_pending ∷ second compensation_candidate ∷ [])))
      (initiate_compensation_for_committed_saga
        (world compensation_requested (first execution_done) (second execution_done)))
initiate_compensation_for_committed_saga-Made_example =
    initiate_compensation_for_committed_saga-Made "g" (first execution_done ∷ [])
      (second execution_done) (first execution_done)
      (world compensation_requested (first execution_done) (second execution_done))
      (Focus_example compensation_requested execution_done execution_done) (refl, tt) refl

poll_step-Made_example :
    Outcome
      (λ _ v. Made (Becomes "g" running (first execution_done ∷ second execution_candidate ∷ [])) v)
      (Stopped
        (world running (first execution_succeeded) (second execution_pending)).tables
        (Becomes "g" running (first execution_done ∷ second execution_candidate ∷ [])))
      (poll_step "g" "1" (world running (first execution_succeeded) (second execution_pending)))
unfolding saga_row
poll_step-Made_example =
    poll_step-Made "g" (world running (first execution_succeeded) (second execution_pending))
      (saga running) [] (first execution_succeeded) (second execution_pending ∷ []) refl
      (Chain_example running execution_succeeded execution_pending) refl refl refl
      (record { done = tt; active = tt; waiting = ((refl, refl), tt) }) refl refl
