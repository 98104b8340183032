-- ===== src/Scenario/Handlers.antt =====
-- The theorems on the cases of processSagaStep at concrete sagas.
use trax.Prelude.{◌≡◌, refl, true, false, [], ◌∷◌}
use trax.State.{
  running, execution_pending, execution_running, execution_failed, execution_aborted,
  compensation_candidate,
}
use trax.Model.{SagaStepInstance, SagaStepExecutionLog}
use trax.Store.{World}
use trax.Store.Outcome.{Outcome}
use trax.Coordinator.Forward.{new_log, process_execution_failed}
use trax.Coordinator.Rules.Focus.{Focus}
use trax.Coordinator.Soundness.Held.{Becomes, Made, Stopped}
use trax.Coordinator.Soundness.Turn.{process_execution_failed-Made}
use trax.Scenario.{first, second, world}
use trax.Scenario.Held.{Focus_example}

process_execution_failed-Made_example :
    Outcome
      (λ again v.
        Made (Becomes "g" running (first compensation_candidate ∷ second execution_aborted ∷ [])) v
        × (again ≡ true))
      (Stopped
        (world running (first execution_failed) (second execution_pending)).tables
        (Becomes "g" running (first compensation_candidate ∷ second execution_aborted ∷ [])))
      (process_execution_failed (world running (first execution_failed) (second execution_pending)))
process_execution_failed-Made_example =
    process_execution_failed-Made "g"
      (world running (first execution_failed) (second execution_pending)) []
      (first execution_failed) (second execution_pending ∷ [])
      (Focus_example running execution_failed execution_pending)
      (record { done = tt; active = tt; waiting = ((refl, refl), tt) })

-- A request that was sent at 2, to be answered by 5.
abbrev late_log : SagaStepExecutionLog
late_log = record (new_log 1 false) { execution_request_sent_ts = 2; execution_timeout_ts = 5 }

abbrev late_step : SagaStepInstance
late_step = record (first execution_running) { execution_history = late_log ∷ [] }

-- The clock stands at 9.
abbrev late_world : World
late_world = record (world running late_step (second execution_pending)) { calls = 9 }
