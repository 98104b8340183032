-- ===== src/Coordinator/Result/Recording.antt =====
-- What the handler of results writes into the row of the step.
use trax.Prelude.{
  ℕ, suc, String, Bool-cases, ◌≡◌, refl, ◌∙◌, inl, inr, Bool, true, false, List, ◌∷◌, ◌++◌,
  if◌then◌else◌,
}
use trax.State.{SagaStepState}
use trax.Model.{SagaStepInstance, SagaStepExecutionLog, StringMap}
use trax.Sequence.Natural.{SameLinks}
use trax.Store.{Tables, World, M, gets, modify, attempt, ◌>>=◌}
use trax.Store.Rows.{update_steps, set_step_result, set_step_compensation_result, set_step_history}
use trax.Store.Calls.{
  update_saga_step_result, update_saga_step_compensation_result, update_saga_step_execution_history,
}
use trax.Store.Outcome.{Outcome, Failed, tick, execute-Outcome}
use trax.Coordinator.Running.{update_last}
use trax.Coordinator.Result.{store_result}
use trax.Coordinator.Rules.Chain.{Chain}
use trax.Coordinator.Rules.Transitions.{saga_state}
use trax.Coordinator.Rules.Focus.{with_history, with_history-SameLinks}
use trax.Coordinator.Rules.Zipper.{Chain-update_here, saga_state-update_steps}

-- The step with its result in the field for it.
abbrev pub with_result : Bool → StringMap → SagaStepInstance → SagaStepInstance
with_result b result s = record s {
  result = if b then s.result else result;
  compensation_result = if b then result else s.compensation_result;
}

with_result-SameLinks :
    (b : Bool) (result : StringMap) (s : SagaStepInstance) → SameLinks (with_result b result s) s
with_result-SameLinks b result s = record {
  same_id = refl;
  same_saga = refl;
  same_previous = refl;
  same_next = refl;
}

-- The history with a result in its last log.
abbrev pub answered : ℕ → StringMap → List SagaStepExecutionLog → List SagaStepExecutionLog
answered now result = update_last λ log. record log {
  execution_result_received_ts = now;
  execution_result = result;
  log_conclusion_ts = now;
}

-- The step after its result was recorded.
abbrev pub concluded : Bool → SagaStepState → ℕ → StringMap → SagaStepInstance → SagaStepInstance
concluded b target now result s = record (with_result b result s) {
  state = target;
  execution_history = answered now result s.execution_history;
}

module _ {κ} {B : Type κ} (R : B → World → Type 0) (F : World → Type 0) where
  pub store_rule :
      (b : Bool) (result : StringMap) (k : Unit {0} → M B) (w : World)
      → (Failed w → F (tick (record w { step = with_result b result w.step })))
      → Outcome R F (
          k tt (record w {
            calls = suc w.calls;
            step = with_result b result w.step;
            tables = update_steps w.step.instance_id (with_result b result) w.tables;
          }))
      → Outcome R F ((store_result result b >>= k) w)
  unfolding store_result update_saga_step_compensation_result update_saga_step_result ◌>>=◌ attempt
      gets modify set_step_result set_step_compensation_result
  store_rule true result k w failed h = elim (Bool-cases (w.env.fails w.calls)) [
    | inl a ↦ rw a (failed (w.calls, a))
    | inr a ↦ rw a h
  ]
  store_rule false result k w failed h = elim (Bool-cases (w.env.fails w.calls)) [
    | inl a ↦ rw a (failed (w.calls, a))
    | inr a ↦ rw a h
  ]

  pub history_call :
      (step : SagaStepInstance) (k : Unit {0} → M B) (w : World)
      → (Failed w → F (tick w))
      → Outcome R F (
          k tt (record w {
            calls = suc w.calls;
            tables = update_steps step.instance_id (with_history step) w.tables;
          }))
      → Outcome R F ((update_saga_step_execution_history step >>= k) w)
  unfolding update_saga_step_execution_history set_step_history
  history_call step k w failed h = execute-Outcome R F (set_step_history step) k w failed h

-- The rows once the result and the history are stored.
abbrev pub stored : Bool → ℕ → StringMap → SagaStepInstance → Tables → Tables
stored b now result s t =
    update_steps s.instance_id (with_history (concluded b s.state now result s))
      (update_steps s.instance_id (with_result b result) t)

module _ (g : String) (before : List SagaStepInstance) (here : SagaStepInstance)
    (after : List SagaStepInstance) (result : StringMap) (now : ℕ) (t : Tables) where
  pub Chain-stored :
      (b : Bool)
      → Chain g t (before ++ here ∷ after)
      → Chain g
          (stored b now result here t)
          (before ++ concluded b here.state now result here ∷ after)
  Chain-stored b c =
      Chain-update_here g (update_steps here.instance_id (with_result b result) t) before
        (with_result b result here) after
        (Chain-update_here g t before here after c (with_result b result)
          (with_result-SameLinks b result))
        (with_history (concluded b here.state now result here))
        (with_history-SameLinks (concluded b here.state now result here))

  pub saga_state-stored : (b : Bool) → saga_state g (stored b now result here t) ≡ saga_state g t
  saga_state-stored b =
      saga_state-update_steps g (update_steps here.instance_id (with_result b result) t)
        here.instance_id (with_history (concluded b here.state now result here))
      ∙ saga_state-update_steps g t here.instance_id (with_result b result)

-- The time at which the result is recorded.
abbrev pub received_at : World → ℕ
received_at w = w.env.clock (suc (suc (suc (suc (suc (suc (suc w.calls)))))))
