-- ===== src/Scenario/Results.antt =====
-- Results of steps that run.
use trax.Prelude.{refl, inl, inr, All, true, false, [], ◌∷◌}
use trax.State.{
  running, execution_pending, execution_running, execution_succeeded, compensation_done,
  compensation_running, compensation_failed,
}
use trax.Model.{SagaStepInstance}
use trax.Store.{World, ◌>>◌}
use trax.Store.Rows.{steps_of_saga, step_row, saga_row}
use trax.Store.Outcome.{Outcome}
use trax.Sequence.{order_saga_steps_in_sequence, first_step, follow, next_step, step_map}
use trax.Coordinator.Forward.{new_log}
use trax.Coordinator.Result.{process_saga_step_execution_result}
use trax.Coordinator.Result.Kept.{
  row_with_result, Recorded, execution_result-Made, compensation_result-Made,
}
use trax.Coordinator.Result.Accepted.{Left}
use trax.Coordinator.Result.Repeated.{receive_more, RecordedOnce, Lost, result-Once}
use trax.Coordinator.Process.Idle.{Stays, AtWork-Stays}
use trax.Coordinator.Rules.Chain.{Chain}
use trax.Coordinator.Soundness.Held.{Becomes}
use trax.Scenario.{first, second, world, answer, refusal}

abbrev at_work : SagaStepInstance
at_work = record (first execution_running) { execution_history = new_log 1 false ∷ [] }

abbrev undoing : SagaStepInstance
undoing = record (first compensation_running) {
  execution_history = new_log 1 false ∷ new_log 2 true ∷ [];
}

abbrev forth : World
forth = world running at_work (second execution_pending)

abbrev back : World
back = world running undoing (second compensation_done)

Chain-forth : Chain "g" forth.tables (at_work ∷ second execution_pending ∷ [])
unfolding order_saga_steps_in_sequence first_step follow next_step step_map steps_of_saga step_row
Chain-forth = record {
  ordered = refl;
  distinct = ((refl, tt), (tt, tt));
  rows = (refl, (refl, tt));
  listed = (refl, (refl, tt));
}

Chain-back : Chain "g" back.tables (undoing ∷ second compensation_done ∷ [])
unfolding order_saga_steps_in_sequence first_step follow next_step step_map steps_of_saga step_row
Chain-back = record {
  ordered = refl;
  distinct = ((refl, tt), (tt, tt));
  rows = (refl, (refl, tt));
  listed = (refl, (refl, tt));
}

-- The first step succeeds.
execution_result-Made_example :
    Outcome {A = Unit {0}}
      (λ _ v.
        Recorded "g" forth [] at_work
          (second execution_pending ∷ [])
          (answer "1")
          execution_succeeded
          false
          v)
      (Left forth.tables (
        Becomes "g" running (
          row_with_result "g" forth [] at_work
            (second execution_pending ∷ [])
            (answer "1")
            execution_succeeded
            false
          ∷ second execution_pending
          ∷ [])))
      (process_saga_step_execution_result (answer "1") forth)
unfolding saga_row new_log
execution_result-Made_example =
    execution_result-Made "g" forth [] at_work (second execution_pending ∷ []) (answer "1")
      execution_succeeded refl Chain-forth refl
      (record { done = tt; active = (new_log 1 false, refl, refl); waiting = ((refl, refl), tt) })
      refl refl refl refl

-- The compensation of the first step fails.
compensation_result-Made_example :
    Outcome {A = Unit {0}}
      (λ _ v.
        Recorded "g" back [] undoing
          (second compensation_done ∷ [])
          (refusal "1")
          compensation_failed
          true
          v)
      (Left back.tables (
        Becomes "g" running (
          row_with_result "g" back [] undoing
            (second compensation_done ∷ [])
            (refusal "1")
            compensation_failed
            true
          ∷ second compensation_done
          ∷ [])))
      (process_saga_step_execution_result (refusal "1") back)
unfolding saga_row new_log
compensation_result-Made_example =
    compensation_result-Made "g" back [] undoing (second compensation_done ∷ []) (refusal "1")
      compensation_failed refl Chain-back refl
      (record { pending = tt; active = (new_log 2 true, refl, refl); undone = inl (refl, tt) }) refl
      refl refl refl

-- The first step succeeds, and its answer comes again after a refusal.
result-Once_example :
    Outcome
      (λ _ v.
        RecordedOnce "g" forth [] at_work
          (second execution_pending ∷ [])
          (answer "1")
          execution_succeeded
          false
          v)
      (Lost "g" forth [] at_work
        (second execution_pending ∷ [])
        (answer "1")
        execution_succeeded
        false)
      ((process_saga_step_execution_result (answer "1")
          >> receive_more (refusal "1" ∷ answer "1" ∷ []))
        forth)
unfolding saga_row new_log
result-Once_example =
    result-Once "g" forth [] at_work (second execution_pending ∷ []) (answer "1")
      execution_succeeded false (refusal "1" ∷ answer "1" ∷ []) refl Chain-forth refl refl refl
      (
        record { done = tt; active = (new_log 1 false, refl, refl); waiting = ((refl, refl), tt) },
        refl,
        refl,
      )
      (inl refl, (inl refl, tt))

-- The second step is compensated, and the first one is being compensated.
AtWork-Stays_example : All (Stays "g" back) (undoing ∷ second compensation_done ∷ [])
unfolding saga_row new_log
AtWork-Stays_example =
    AtWork-Stays "g" back [] undoing (second compensation_done ∷ []) Chain-back refl (
      inr (
        record { pending = tt; active = (new_log 2 true, refl, refl); undone = inl (refl, tt) },
        refl,
      ))
