-- ===== src/Scenario/Courses.antt =====
-- The course of a saga of two steps, and requests that go out.
use trax.Prelude.{◌≡◌, refl, inl, true, false, none, [], ◌∷◌}
use trax.State.{
  running, execution_pending, execution_candidate, execution_running, execution_done,
  compensation_running, compensation_done,
}
use trax.Model.{SagaStepInstance}
use trax.Store.{World}
use trax.Store.Rows.{steps_of_saga, step_row, saga_row}
use trax.Store.Outcome.{Outcome, tick}
use trax.Sequence.{order_saga_steps_in_sequence, first_step, follow, next_step, step_map}
use trax.Coordinator.Course.{course, rollback_course}
use trax.Coordinator.Course.Compensated.{Returned, first_reached, before_it}
use trax.Coordinator.Course.RolledBack.{rollback_course-Returned}
use trax.Coordinator.Course.Committed.{Finished, course-Finished}
use trax.Coordinator.Forward.{new_log}
use trax.Coordinator.Process.{process_saga_step}
use trax.Coordinator.Process.Rounds.{Reliable, Surely}
use trax.Coordinator.Process.Visit.{Going}
use trax.Coordinator.Quiet.Rounds.{process_saga_step-Silent}
use trax.Coordinator.Rules.Focus.{Focus}
use trax.Coordinator.Running.{progress, process_execution_running, process_compensation_running}
use trax.Coordinator.Soundness.Request.{HasInput, process_execution_running-Sent}
use trax.Coordinator.Soundness.Send.{sent_step, Sent, Unsent}
use trax.Coordinator.Soundness.UndoRequest.{HasUndoInput, process_compensation_running-Sent}
use trax.Scenario.{calm, start, first, second, world, answer, refusal}
use trax.Scenario.Held.{Chain_example}

Reliable-calm : Reliable calm
Reliable-calm = record { answers = λ n. refl; steady = λ m n h. h }

Going-start : Going "g" start [] (first execution_candidate) (second execution_pending ∷ [])
unfolding saga_row
Going-start = record {
  closed = refl;
  chain = Chain_example running execution_candidate execution_pending;
  row = refl;
  forward = record { done = tt; active = refl; waiting = ((refl, refl), tt) };
  reliable = Reliable-calm;
}

course-Finished_example :
    Surely
      (λ _ v.
        Finished "g"
          (first execution_candidate ∷ second execution_pending ∷ [])
          (first execution_candidate ∷ second execution_pending ∷ [])
          start
          v)
      (course (answer "1" ∷ answer "2" ∷ []))
      start
course-Finished_example =
    course-Finished "g" [] (first execution_candidate) (second execution_pending ∷ []) start
      (answer "1" ∷ answer "2" ∷ []) Going-start refl ((refl, refl, refl), ((refl, refl, refl), tt))

abbrev halfway : World
halfway = world running (first execution_done) (second execution_candidate)

Going-halfway : Going "g" halfway (first execution_done ∷ []) (second execution_candidate) []
unfolding saga_row
Going-halfway = record {
  closed = refl;
  chain = Chain_example running execution_done execution_candidate;
  row = refl;
  forward = record { done = (refl, tt); active = refl; waiting = tt };
  reliable = Reliable-calm;
}

rollback_course-Returned_example :
    Surely
      (λ _ v.
        Returned "g"
          (first execution_done ∷ second execution_candidate ∷ [])
          []
          ("1" ∷ "2" ∷ "2" ∷ [])
          v)
      (rollback_course (refusal "2") (answer "2") (answer "1" ∷ []))
      halfway
rollback_course-Returned_example =
    rollback_course-Returned "g" (first execution_done ∷ []) (second execution_candidate) [] halfway
      Going-halfway (refl, tt) refl (refusal "2") (refl, refl, refl) (answer "2") (answer "1" ∷ [])
      (refl, refl, refl)
      (before_it (first execution_done) (answer "1") (refl, refl, refl) first_reached)

process_saga_step-Silent_example : (process_saga_step start).1.published ≡ start.published
process_saga_step-Silent_example = process_saga_step-Silent start refl

-- A request that is still to be sent.
abbrev unsent_step : SagaStepInstance
unsent_step = record (first execution_running) { execution_history = new_log 1 false ∷ [] }

abbrev unsent_world : World
unsent_world = record (world running unsent_step (second execution_pending)) { calls = 9 }

Focus-unsent_world :
    Focus "g" none running unsent_world unsent_step (unsent_step ∷ second execution_pending ∷ [])
unfolding order_saga_steps_in_sequence first_step follow next_step step_map steps_of_saga step_row
    saga_row
Focus-unsent_world = record {
  saved_is = refl;
  saga_held = refl;
  step_held = refl;
  chain = record {
    ordered = refl;
    distinct = ((refl, tt), (tt, tt));
    rows = (refl, (refl, tt));
    listed = (refl, (refl, tt));
  };
  row = refl;
  state_held = refl;
}

process_execution_running-Sent_example :
    Outcome
      (λ again v.
        Sent "g" running
          (sent_step (tick unsent_world) unsent_step ∷ second execution_pending ∷ [])
          false
          (HasInput "g" [] unsent_step (second execution_pending ∷ []) unsent_world)
          (tick unsent_world)
          v
        × (again ≡ false))
      (Unsent "g" running
        (sent_step (tick unsent_world) unsent_step ∷ second execution_pending ∷ [])
        false
        (HasInput "g" [] unsent_step (second execution_pending ∷ []) unsent_world)
        (tick unsent_world))
      (process_execution_running unsent_world)
unfolding progress new_log
process_execution_running-Sent_example =
    process_execution_running-Sent "g" [] unsent_step (second execution_pending ∷ []) unsent_world
      (new_log 1 false) Focus-unsent_world
      (record { done = tt; active = (new_log 1 false, refl, refl); waiting = ((refl, refl), tt) })
      refl refl refl

-- The same of a compensation.
abbrev undo_step : SagaStepInstance
undo_step = record (first compensation_running) { execution_history = new_log 1 true ∷ [] }

abbrev undo_world : World
undo_world = record (world running undo_step (second compensation_done)) { calls = 9 }

Focus-undo_world :
    Focus "g" none running undo_world undo_step (undo_step ∷ second compensation_done ∷ [])
unfolding order_saga_steps_in_sequence first_step follow next_step step_map steps_of_saga step_row
    saga_row
Focus-undo_world = record {
  saved_is = refl;
  saga_held = refl;
  step_held = refl;
  chain = record {
    ordered = refl;
    distinct = ((refl, tt), (tt, tt));
    rows = (refl, (refl, tt));
    listed = (refl, (refl, tt));
  };
  row = refl;
  state_held = refl;
}

process_compensation_running-Sent_example :
    Outcome
      (λ again v.
        Sent "g" running
          (sent_step (tick undo_world) undo_step ∷ second compensation_done ∷ [])
          true
          (HasUndoInput "g" [] undo_step (second compensation_done ∷ []) undo_world)
          (tick undo_world)
          v
        × (again ≡ false))
      (Unsent "g" running
        (sent_step (tick undo_world) undo_step ∷ second compensation_done ∷ [])
        true
        (HasUndoInput "g" [] undo_step (second compensation_done ∷ []) undo_world)
        (tick undo_world))
      (process_compensation_running undo_world)
unfolding progress new_log
process_compensation_running-Sent_example =
    process_compensation_running-Sent "g" [] undo_step (second compensation_done ∷ []) undo_world
      (new_log 1 true) Focus-undo_world
      (record { pending = tt; active = (new_log 1 true, refl, refl); undone = inl (refl, tt) }) refl
      refl refl
