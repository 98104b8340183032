-- ===== src/Coordinator/Result/Repeated.antt =====
-- Further results for a step whose result is recorded.
use trax.Prelude.{
  String, ◌≡◌, refl, sym, subst, ◌∙◌, Bool, ◌⊎◌, inl, inr, true, false, none, some, List, [], ◌∷◌,
  ◌++◌, All, All-left, All-right,
}
use trax.State.{
  ExecutionResultStatus, unknown, success, in_execution, failed, retry, error, SagaStepState,
  execution_running, execution_succeeded, execution_failed, execution_done, compensation_pending,
  compensation_running, compensation_succeeded, compensation_failed, running,
}
use trax.Model.{SagaStepInstance}
use trax.Store.{Tables, World, Exit, ok, stop, invalidate, panicked, hangs, M, pure, ignore, ◌>>◌}
use trax.Store.Rows.{step_row}
use trax.Store.Outcome.{Outcome, bind-Outcome, weaken-Outcome}
use trax.Coordinator.Process.Skipped.{Untouched}
use trax.Coordinator.Rules.Chain.{Chain}
use trax.Coordinator.Rules.Transitions.{saga_state}
use trax.Coordinator.Rules.Zipper.{Chain-row}
use trax.Coordinator.Soundness.Shapes.{Forward, Backward}
use trax.Coordinator.Soundness.Each.{Pass, Are-Pass, Undone-Pass}
use trax.Coordinator.Soundness.Held.{Becomes}
use trax.Coordinator.Result.{
  SagaStepExecutionResultPayload, ignores_result, process_saga_step_execution_result,
}
use trax.Coordinator.Result.Accepted.{Left}
use trax.Coordinator.Result.Late.{late_result}
use trax.Coordinator.Result.Kept.{
  Answers, row_with_result, Recorded, execution_result-Made, compensation_result-Made,
}

-- A result puts the step in a state that waits for none.
execution_late :
    (status : ExecutionResultStatus) (target : SagaStepState)
    → Answers execution_succeeded execution_failed status target
    → ignores_result target ≡ true
unfolding ignores_result
execution_late unknown target h = rw h refl
execution_late success target h = rw h refl
execution_late in_execution target h = absurd h
execution_late failed target h = rw h refl
execution_late retry target h = rw h refl
execution_late error target h = rw h refl

compensation_late :
    (status : ExecutionResultStatus) (target : SagaStepState)
    → Answers compensation_succeeded compensation_failed status target
    → ignores_result target ≡ true
unfolding ignores_result
compensation_late unknown target h = rw h refl
compensation_late success target h = rw h refl
compensation_late in_execution target h = absurd h
compensation_late failed target h = rw h refl
compensation_late retry target h = rw h refl
compensation_late error target h = rw h refl

-- Some more results arrive, one after the other, and an error of one does not keep back the next.
abbrev pub receive_more : List SagaStepExecutionResultPayload → M (Unit {0})
receive_more [] = pure tt
receive_more (p ∷ more) = ignore (process_saga_step_execution_result p) >> receive_more more

-- The row of the step is in a state that waits for no result.
abbrev Late : Tables → String → Type 0
Late t id = (r : SagaStepInstance) × (step_row id t ≡ some r) × (ignores_result r.state ≡ true)

abbrev AllLate : Tables → List SagaStepExecutionResultPayload → Type 0
AllLate t = All λ p. Late t p.saga_step_instance_id

-- The id is that of one of the steps.
abbrev pub IdOf : String → List SagaStepInstance → Type 0
IdOf id [] = ⊥
IdOf id (s ∷ steps) = (id ≡ s.instance_id) ⊎ IdOf id steps

Late-row :
    (t : Tables) (steps : List SagaStepInstance)
    → All (λ s. step_row s.instance_id t ≡ some s) steps
    → Pass ignores_result steps
    → (id : String) → IdOf id steps
    → Late t id
Late-row t [] rows h id i = absurd i
Late-row t (s ∷ steps) rows h id (inl e) =
    (s, subst (λ i. step_row i t ≡ some s) (sym e) rows.0, h.0)
Late-row t (s ∷ steps) rows h id (inr i) = Late-row t steps rows.1 h.1 id i

Untouched-trans : (u v w : World) → Untouched u v → Untouched v w → Untouched u w
Untouched-trans u v w a b = (b.0 ∙ a.0, b.1 ∙ a.1, b.2 ∙ a.2)

module _ (F : World → Type 0) where
  ignored :
      (e : Exit (Unit {0})) (w v : World)
      → Outcome (λ _ u. Untouched w u) (Untouched w) (e, v)
      → Outcome (λ _ u. Untouched w u) F (ignore (λ _. (e, v)) w)
  unfolding ignore
  ignored (ok a) w v h = h
  ignored stop w v h = h
  ignored invalidate w v h = h
  ignored panicked w v h = h
  ignored hangs w v h = h

  -- They change nothing, whichever calls fail.
  more-Untouched :
      (more : List SagaStepExecutionResultPayload) (w : World)
      → AllLate w.tables more
      → Outcome (λ _ v. Untouched w v) F (receive_more more w)
  unfolding pure ignore
  more-Untouched [] w late = (refl, refl, refl)
  more-Untouched (p ∷ more) w late =
      bind-Outcome (λ _ v. Untouched w v) (λ _ v. Untouched w v) F
        (ignore (process_saga_step_execution_result p)) _ w
        (ignored _ w _ (late_result p w late.0.0 late.0.1 late.0.2))
        (λ _ v u.
          weaken-Outcome _ F (λ _ x. Untouched v x) (receive_more more) v
            (more-Untouched more v (subst (λ t. AllLate t more) (sym u.0) late.1))
            (λ _ x t. Untouched-trans w v x u t))

module _ (g : String) (w : World) (before : List SagaStepInstance) (here : SagaStepInstance)
    (after : List SagaStepInstance) (payload : SagaStepExecutionResultPayload)
    (target : SagaStepState) where
  -- The result is recorded, and one goroutine is started.
  abbrev pub RecordedOnce : Bool → World → Type 0
  RecordedOnce b v =
      Becomes g running (before ++ row_with_result g w before here after payload target b ∷ after)
        v.tables
      × (v.spawned ≡ (payload.saga_instance_id, payload.saga_step_instance_id) ∷ w.spawned)

  abbrev pub Lost : Bool → World → Type 0
  Lost b =
      Left w.tables (
        Becomes g running
          (before ++ row_with_result g w before here after payload target b ∷ after))

  -- The steps that wait for no result once this one is recorded: this step, those before it and, on
  -- the way back, those after it.
  abbrev pub Settled : Bool → String → Type 0
  Settled false id = (id ≡ here.instance_id) ⊎ IdOf id before
  Settled true id = (id ≡ here.instance_id) ⊎ (IdOf id before ⊎ IdOf id after)

  abbrev PassAfter : Bool → Type 0
  PassAfter false = Unit
  PassAfter true = Pass ignores_result after

  abbrev recorded : Bool → SagaStepInstance
  recorded b = row_with_result g w before here after payload target b

  module _ (late : ignores_result target ≡ true) (passed : Pass ignores_result before) where
    Settled-Late :
        (b : Bool) (t : Tables)
        → Chain g t (before ++ recorded b ∷ after)
        → PassAfter b
        → (id : String) → Settled b id
        → Late t id
    Settled-Late false t c p id (inl e) = (
      recorded false,
      subst (λ i. step_row i t ≡ some (recorded false)) (sym e)
          (Chain-row g t before (recorded false) after c),
      late,
    )
    Settled-Late false t c p id (inr i) = Late-row t before (All-left _ before _ c.rows) passed id i
    Settled-Late true t c p id (inl e) = (
      recorded true,
      subst (λ i. step_row i t ≡ some (recorded true)) (sym e)
          (Chain-row g t before (recorded true) after c),
      late,
    )
    Settled-Late true t c p id (inr (inl i)) =
        Late-row t before (All-left _ before _ c.rows) passed id i
    Settled-Late true t c p id (inr (inr i)) =
        Late-row t after (All-right _ before _ c.rows).1 p id i

    more-Late :
        (b : Bool) (t : Tables) (more : List SagaStepExecutionResultPayload)
        → Chain g t (before ++ recorded b ∷ after)
        → PassAfter b
        → All (λ p. Settled b p.saga_step_instance_id) more
        → AllLate t more
    more-Late b t [] c p h = tt
    more-Late b t (q ∷ more) c p h = (Settled-Late b t c p _ h.0, more-Late b t more c p h.1)

    recorded_once :
        (b : Bool) (more : List SagaStepExecutionResultPayload)
        → All (λ p. Settled b p.saga_step_instance_id) more
        → PassAfter b
        → Outcome {A = Unit {0}}
            (λ _ v. Recorded g w before here after payload target b v)
            (Lost b)
            (process_saga_step_execution_result payload w)
        → Outcome
            (λ _ v. RecordedOnce b v)
            (Lost b)
            ((process_saga_step_execution_result payload >> receive_more more) w)
    recorded_once b more settled p first =
        bind-Outcome _ (λ _ v. RecordedOnce b v) (Lost b)
          (process_saga_step_execution_result payload) _ w first
          (λ _ v r.
            weaken-Outcome _ (Lost b) (λ _ x. Untouched v x) (receive_more more) v
              (more-Untouched (Lost b) more v (more-Late b v.tables more r.0.1.1 p settled))
              (λ _ x u. (
                subst (Becomes g running (before ++ recorded b ∷ after)) (sym u.0) r.0.1,
                u.2 ∙ r.1,
              )))

  -- The step waits for the result of an execution (false) or a compensation (true), and the status
  -- of the result says to which state it leads.
  abbrev pub Awaited : Bool → Type 0
  Awaited false =
      Forward before here after
      × (here.state ≡ execution_running)
      × Answers execution_succeeded execution_failed payload.status target
  Awaited true =
      Backward before here after
      × (here.state ≡ compensation_running)
      × Answers compensation_succeeded compensation_failed payload.status target

  -- A result arrives, with no transaction open, for the step to which a running saga has come: it is
  -- EXECUTION_RUNNING in a forward picture, or COMPENSATION_RUNNING in a backward one, and the
  -- status is not that the service is still at work. After it any number of further results arrive,
  -- with any status, each for this step or one before it or, in a backward picture, one after it.
  -- The first is recorded: the step becomes EXECUTION_SUCCEEDED or EXECUTION_FAILED, or
  -- COMPENSATION_SUCCEEDED or COMPENSATION_FAILED, and no other step changes. The others change no
  -- row, whichever calls fail and whether their handling ends well or stops, and one goroutine is
  -- started in all. Only the handling of the first can end this course, in an environment that makes
  -- some call fail, with all of its work done or none of it in the rows.
  pub result-Once :
      (b : Bool) (more : List SagaStepExecutionResultPayload)
      → w.saved ≡ none
      → Chain g w.tables (before ++ here ∷ after)
      → saga_state g w.tables ≡ some running
      → payload.saga_instance_id ≡ g
      → payload.saga_step_instance_id ≡ here.instance_id
      → Awaited b
      → All (λ p. Settled b p.saga_step_instance_id) more
      → Outcome
          (λ _ v. RecordedOnce b v)
          (Lost b)
          ((process_saga_step_execution_result payload >> receive_more more) w)
  unfolding ignores_result
  result-Once false more closed c row same_saga same_step (f, runs, answers) settled =
      recorded_once (execution_late payload.status target answers)
        (Are-Pass ignores_result execution_done before refl f.done) false more settled tt
        (execution_result-Made g w before here after payload target closed c row f runs same_saga
          same_step answers)
  result-Once true more closed c row same_saga same_step (f, runs, answers) settled =
      recorded_once (compensation_late payload.status target answers)
        (Are-Pass ignores_result compensation_pending before refl f.pending) true more settled
        (Undone-Pass ignores_result after refl refl f.undone)
        (compensation_result-Made g w before here after payload target closed c row f runs same_saga
          same_step answers)
