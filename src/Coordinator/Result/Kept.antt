-- ===== src/Coordinator/Result/Kept.antt =====
-- Results that a step waits for keep its saga sound.
use trax.Prelude.{String, ◌≡◌, refl, sym, subst, Bool, true, false, none, some, List, ◌∷◌, ◌++◌}
use trax.State.{
  ExecutionResultStatus, unknown, success, in_execution, failed, retry, error, SagaStepState,
  execution_running, execution_succeeded, execution_failed, compensation_running,
  compensation_succeeded, compensation_failed, running,
}
use trax.Model.{SagaStepInstance}
use trax.Store.{World}
use trax.Store.Outcome.{Outcome}
use trax.Coordinator.Result.{
  SagaStepExecutionResultPayload, ignores_result, result_state, process_saga_step_execution_result,
}
use trax.Coordinator.Result.Recording.{concluded, received_at}
use trax.Coordinator.Result.Accepted.{Left, awaited_result-Made}
use trax.Coordinator.Rules.Chain.{Chain}
use trax.Coordinator.Rules.Transitions.{saga_state}
use trax.Coordinator.Soundness.Shapes.{
  Sound, Forward, Backward, ForwardHere, BackwardHere, forward, backward,
}
use trax.Coordinator.Soundness.Held.{Becomes, Made}

-- The state to which an answer takes a step that runs: a service that is still at work gives none.
abbrev pub Answers : SagaStepState → SagaStepState → ExecutionResultStatus → SagaStepState → Type 0
Answers succeeds fails in_execution target = ⊥
Answers succeeds fails success target = target ≡ succeeds
Answers succeeds fails _ target = target ≡ fails

execution-Answers :
    (status : ExecutionResultStatus) (target : SagaStepState)
    → Answers execution_succeeded execution_failed status target
    → result_state false status ≡ some target
unfolding result_state
execution-Answers unknown target h = rw h refl
execution-Answers success target h = rw h refl
execution-Answers in_execution target h = absurd h
execution-Answers failed target h = rw h refl
execution-Answers retry target h = rw h refl
execution-Answers error target h = rw h refl

compensation-Answers :
    (status : ExecutionResultStatus) (target : SagaStepState)
    → Answers compensation_succeeded compensation_failed status target
    → result_state true status ≡ some target
unfolding result_state
compensation-Answers unknown target h = rw h refl
compensation-Answers success target h = rw h refl
compensation-Answers in_execution target h = absurd h
compensation-Answers failed target h = rw h refl
compensation-Answers retry target h = rw h refl
compensation-Answers error target h = rw h refl

forward_target :
    (s : SagaStepInstance) (status : ExecutionResultStatus) (target : SagaStepState)
    → Answers execution_succeeded execution_failed status target
    → ForwardHere s target
forward_target s unknown target h = subst (ForwardHere s) (sym h) tt
forward_target s success target h = subst (ForwardHere s) (sym h) tt
forward_target s in_execution target h = absurd h
forward_target s failed target h = subst (ForwardHere s) (sym h) tt
forward_target s retry target h = subst (ForwardHere s) (sym h) tt
forward_target s error target h = subst (ForwardHere s) (sym h) tt

backward_target :
    (s : SagaStepInstance) (status : ExecutionResultStatus) (target : SagaStepState)
    → Answers compensation_succeeded compensation_failed status target
    → BackwardHere s target
backward_target s unknown target h = subst (BackwardHere s) (sym h) tt
backward_target s success target h = subst (BackwardHere s) (sym h) tt
backward_target s in_execution target h = absurd h
backward_target s failed target h = subst (BackwardHere s) (sym h) tt
backward_target s retry target h = subst (BackwardHere s) (sym h) tt
backward_target s error target h = subst (BackwardHere s) (sym h) tt

module _ (g : String) (w : World) (before : List SagaStepInstance) (here : SagaStepInstance)
    (after : List SagaStepInstance) (payload : SagaStepExecutionResultPayload)
    (target : SagaStepState) where
  -- The row of the step with the result in it, of an execution (false) or a compensation (true).
  abbrev pub row_with_result : Bool → SagaStepInstance
  row_with_result b = concluded b target (received_at w) payload.execution_result here

  abbrev pub Recorded : Bool → World → Type 0
  Recorded b v =
      Made (Becomes g running (before ++ row_with_result b ∷ after)) v
      × (v.spawned ≡ (payload.saga_instance_id, payload.saga_step_instance_id) ∷ w.spawned)

  -- A result arrives, with no transaction open, for a step that is EXECUTION_RUNNING, of a running
  -- saga whose steps stand in a forward picture. Its status is not that the service is still at
  -- work. The handler writes the result into the step and into its last log, with the time, sets
  -- the step to EXECUTION_SUCCEEDED if the status is a success and to EXECUTION_FAILED if not,
  -- changes no other step, and starts one goroutine that goes on with the step. It stops only in
  -- an environment that makes some call fail, with all of this done or none of it in the rows. No
  -- transaction is open at the end, except that it can stop with nothing done and its transaction
  -- left open. It never marks the saga invalid, panics or loops for ever.
  pub execution_result-Made :
      w.saved ≡ none
      → Chain g w.tables (before ++ here ∷ after)
      → saga_state g w.tables ≡ some running
      → Forward before here after
      → here.state ≡ execution_running
      → payload.saga_instance_id ≡ g
      → payload.saga_step_instance_id ≡ here.instance_id
      → Answers execution_succeeded execution_failed payload.status target
      → Outcome {A = Unit {0}}
          (λ _ v. Recorded false v)
          (Left w.tables (Becomes g running (before ++ row_with_result false ∷ after)))
          (process_saga_step_execution_result payload w)
  unfolding ignores_result
  execution_result-Made closed c row f runs same_saga same_step answers =
      let (log, last, is) = subst (ForwardHere here) runs f.active in
      subst
        (λ b.
          Outcome {A = Unit {0}} (λ _ v. Recorded b v)
            (Left w.tables (Becomes g running (before ++ row_with_result b ∷ after)))
            (process_saga_step_execution_result payload w))
        is
        (awaited_result-Made g before here after payload log target last
          (subst (λ b. result_state b payload.status ≡ some target) (sym is)
            (execution-Answers payload.status target answers))
          w closed c row same_saga same_step (subst (λ s. ignores_result s ≡ false) (sym runs) refl)
          (λ t c' r'.
            subst (λ b. Chain g t (before ++ row_with_result b ∷ after) → Sound g t) (sym is)
              (λ c''. forward before (row_with_result false) after c'' r' (record {
                done = f.done;
                active = forward_target (row_with_result false) payload.status target answers;
                waiting = f.waiting;
              }))
              c'))

  -- The same of a step that is COMPENSATION_RUNNING, of a running saga whose steps stand in a
  -- backward picture: it becomes COMPENSATION_SUCCEEDED or COMPENSATION_FAILED.
  pub compensation_result-Made :
      w.saved ≡ none
      → Chain g w.tables (before ++ here ∷ after)
      → saga_state g w.tables ≡ some running
      → Backward before here after
      → here.state ≡ compensation_running
      → payload.saga_instance_id ≡ g
      → payload.saga_step_instance_id ≡ here.instance_id
      → Answers compensation_succeeded compensation_failed payload.status target
      → Outcome {A = Unit {0}}
          (λ _ v. Recorded true v)
          (Left w.tables (Becomes g running (before ++ row_with_result true ∷ after)))
          (process_saga_step_execution_result payload w)
  unfolding ignores_result
  compensation_result-Made closed c row f runs same_saga same_step answers =
      let (log, last, is) = subst (BackwardHere here) runs f.active in
      subst
        (λ b.
          Outcome {A = Unit {0}} (λ _ v. Recorded b v)
            (Left w.tables (Becomes g running (before ++ row_with_result b ∷ after)))
            (process_saga_step_execution_result payload w))
        is
        (awaited_result-Made g before here after payload log target last
          (subst (λ b. result_state b payload.status ≡ some target) (sym is)
            (compensation-Answers payload.status target answers))
          w closed c row same_saga same_step (subst (λ s. ignores_result s ≡ false) (sym runs) refl)
          (λ t c' r'.
            subst (λ b. Chain g t (before ++ row_with_result b ∷ after) → Sound g t) (sym is)
              (λ c''. backward before (row_with_result true) after c'' r' (record {
                pending = f.pending;
                active = backward_target (row_with_result true) payload.status target answers;
                undone = f.undone;
              }))
              c'))
