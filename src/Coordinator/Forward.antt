-- ===== src/Coordinator/Forward.antt =====
-- The cases EXECUTION_CANDIDATE, EXECUTION_SUCCEEDED and EXECUTION_FAILED of processSagaStep in
-- pkg/trax/coordinator.go. The result says whether follow-up processing is required.
use trax.Prelude.{
  ℕ, Bool, true, false, Option, none, some, List, [], ◌∷◌, ◌&&◌, all, keep, get_last?,
  if◌then◌else◌,
}
use trax.State.{
  SagaStepState, step_is, execution_pending, execution_candidate, execution_running, execution_done,
  execution_blocked, execution_aborted, compensation_pending, compensation_candidate, committed,
}
use trax.Model.{SagaStepInstance, SagaStepExecutionLog}
use trax.Store.{
  M, exit, invalidate, pure, gets, modify, ignore, time_now, secure_random_string, ◌>>=◌, ◌>>◌,
}
use trax.Store.Calls.{update_saga_state, update_saga_step_execution_history}
use trax.Validation.{Position}
use trax.Coordinator.Transit.{
  transit_saga_to_state, transit_saga_step_to_state, transit_current_step, transit_each,
  transaction, give_up_saga, current_position,
}
use trax.Coordinator.Reason.{extract_compensation_reason}

-- An execution log for a request that is to be sent at once.
unfoldable pub new_log : ℕ → Bool → SagaStepExecutionLog
new_log now is_compensation = record {
  next_execution_ts = now;
  execution_request_sent_ts = 0;
  execution_timeout_ts = 0;
  execution_result_received_ts = 0;
  log_conclusion_ts = 0;
  execution_result = [];
  execution_error = "";
  is_compensation = is_compensation;
  metadata = [];
}

abbrev pub none_or_in : SagaStepState → Option SagaStepInstance → Bool
none_or_in state none = true
none_or_in state (some s) = step_is s.state state

-- `orderedSteps[currentStepIndex-1]`, if there is one, is in the given state.
abbrev pub previous_is : SagaStepState → Position → Bool
previous_is state p = none_or_in state (get_last? p.before)

-- `orderedSteps[currentStepIndex+1]`, if there is one, is in the given state.
abbrev pub next_is : SagaStepState → Position → Bool
next_is state p = elim p.after [ [] ↦ true | s ∷ _ ↦ step_is s.state state ]

-- A new execution id and history, then EXECUTION_RUNNING.
unfoldable pub start_execution : M Bool
unfolding new_log
start_execution = do
  execution_id ← secure_random_string
  now ← time_now
  modify (λ w. record w {
    step = record w.step {
      execution_id = execution_id;
      execution_history = new_log now false ∷ [];
    };
  })
  transaction do
    step ← gets (λ w. w.step)
    update_saga_step_execution_history step
    transit_current_step execution_running
    fresh ← gets (λ w. w.step)
    update_saga_step_execution_history fresh
  pure true

-- A candidate that has logs is blocked.
unfoldable pub candidate_with : List SagaStepExecutionLog → M Bool
candidate_with [] = do
  p ← current_position give_up_saga
  if previous_is execution_done p && next_is execution_pending p
      then start_execution
      else give_up_saga
candidate_with (_ ∷ _) = do ignore (transit_current_step execution_blocked); pure false

unfoldable pub process_execution_candidate : M Bool
unfolding candidate_with
process_execution_candidate = do step ← gets (λ w. w.step); candidate_with step.execution_history

-- What follows the transition of the step itself to EXECUTION_DONE.
unfoldable pub advance : Position → M (Unit {0})
advance p = elim p.after [
  | [] ↦
      if all (λ s. step_is s.state execution_done) p.before
      then (do
        step ← gets (λ w. w.step)
        if step_is step.state execution_done
            then transit_saga_to_state committed
            else exit invalidate)
      else exit invalidate
  | next ∷ _ ↦
      if step_is next.state execution_pending
      then (do fresh ← transit_saga_step_to_state next execution_candidate; pure tt)
      else exit invalidate
]

unfoldable pub process_execution_succeeded : M Bool
unfolding advance
process_execution_succeeded = do
  transaction
      do p ← current_position (exit invalidate); transit_current_step execution_done; advance p
  pure false

-- Those of the next steps that are to be aborted: the others are skipped.
abbrev pub pending : List SagaStepInstance → List SagaStepInstance
pending = keep (λ s. step_is s.state execution_pending)

-- The loop over the previous steps.
unfoldable pub prepare_compensation : List SagaStepInstance → M (Unit {0})
prepare_compensation [] = pure tt
prepare_compensation (s ∷ steps) =
    if step_is s.state execution_done
    then (do fresh ← transit_saga_step_to_state s compensation_pending; prepare_compensation steps)
    else exit invalidate

unfoldable pub process_execution_failed : M Bool
unfolding prepare_compensation
process_execution_failed = do
  transaction do
    p ← current_position (exit invalidate)
    step ← gets (λ w. w.step)
    modify (λ w. record w {
      saga = record w.saga { compensation_reason = extract_compensation_reason step };
    })
    saga ← gets (λ w. w.saga)
    update_saga_state saga.state
    transit_each (pending p.after) execution_aborted
    prepare_compensation p.before
    transit_current_step compensation_candidate
  pure true
