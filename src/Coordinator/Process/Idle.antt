-- ===== src/Coordinator/Process/Idle.antt =====
-- The polling of a saga whose step is at work.
use trax.Prelude.{String, ◌≡◌, refl, ap, inl, inr, ◌⊎◌, some, List, [], ◌∷◌, ◌++◌, All, All-append}
use trax.State.{
  saga_is, compensation_requested, running, execution_running, execution_done, compensation_pending,
  compensation_running,
}
use trax.Model.{SagaInstance, SagaStepInstance}
use trax.Store.{World}
use trax.Store.Outcome.{Outcome}
use trax.Store.Rows.{saga_row}
use trax.Coordinator.Rules.Chain.{Chain, listed_as}
use trax.Coordinator.Rules.Transitions.{saga_state}
use trax.Coordinator.Soundness.Shapes.{Forward, Backward}
use trax.Coordinator.Soundness.Each.{Pass, Are-Pass, Waiting-Pass, Undone-Pass}
use trax.Coordinator.Process.{is_skipped_by_polling, poll_step}
use trax.Coordinator.Process.Skipped.{Untouched, skipped_step_stays}
use trax.Coordinator.Process.Visit.{saga_at}

-- The step that the saga has come to waits for the result of its execution or compensation.
abbrev pub AtWork : List SagaStepInstance → SagaStepInstance → List SagaStepInstance → Type 0
AtWork before here after =
    (Forward before here after × (here.state ≡ execution_running))
    ⊎ (Backward before here after × (here.state ≡ compensation_running))

abbrev Skipped : List SagaStepInstance → Type 0
Skipped = Pass is_skipped_by_polling

module _ (g : String) (w : World) where
  -- Polling the step leaves the rows, and sends and starts nothing, whichever calls fail.
  abbrev pub Stays : SagaStepInstance → Type 0
  Stays s = Outcome (λ _ v. Untouched w v) (Untouched w) (poll_step g s.instance_id w)

  module _ (saga : SagaInstance) (row : saga_row g w.tables ≡ some saga)
      (going : saga.state ≡ running) where
    steps-Stay :
        (steps : List SagaStepInstance)
        → All (λ s. listed_as g w.tables s ≡ some s) steps
        → Skipped steps
        → All Stays steps
    steps-Stay [] listed h = tt
    steps-Stay (s ∷ steps) listed h = (
      skipped_step_stays g s.instance_id w saga s row
          (ap (λ state. saga_is state compensation_requested) going) listed.0 h.0,
      steps-Stay steps listed.1 h.1,
    )

  module _ (before : List SagaStepInstance) (here : SagaStepInstance)
      (after : List SagaStepInstance) where
    AtWork-Skipped : AtWork before here after → Skipped (before ++ here ∷ after)
    unfolding is_skipped_by_polling
    AtWork-Skipped (inl (f, runs)) =
        All-append _ before (here ∷ after)
          (Are-Pass is_skipped_by_polling execution_done before refl f.done)
          (ap is_skipped_by_polling runs, Waiting-Pass is_skipped_by_polling after refl f.waiting)
    AtWork-Skipped (inr (b, runs)) =
        All-append _ before (here ∷ after)
          (Are-Pass is_skipped_by_polling compensation_pending before refl b.pending)
          (
            ap is_skipped_by_polling runs,
            Undone-Pass is_skipped_by_polling after refl refl b.undone,
          )

    -- Saga `g` is RUNNING and has come to a step that is EXECUTION_RUNNING, in a forward picture,
    -- or COMPENSATION_RUNNING, in a backward picture. Then polling does nothing with the saga:
    -- whichever of its steps poll_step is called for, that step included and whatever its logs and
    -- its timeout say, no row changes, no message goes out and no goroutine is started, whichever
    -- calls fail.
    pub AtWork-Stays :
        Chain g w.tables (before ++ here ∷ after)
        → saga_state g w.tables ≡ some running
        → AtWork before here after
        → All Stays (before ++ here ∷ after)
    AtWork-Stays c state at_work =
        let (saga, row, named, going) = saga_at g w.tables running state in
        steps-Stay saga row going (before ++ here ∷ after) c.listed (AtWork-Skipped at_work)
