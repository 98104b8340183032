-- ===== src/Coordinator/Soundness/Timeout.antt =====
-- The case EXECUTION_RUNNING of processSagaStep at the end of the timeout.
use trax.Prelude.{ℕ, String, List, ◌∷◌, ◌++◌}
use trax.State.{execution_failed, running}
use trax.Model.{SagaStepInstance, SagaStepExecutionLog}
use trax.Store.{Tables, World, ◌>>=◌, ◌>>◌}
use trax.Store.Outcome.{Outcome}
use trax.Coordinator.Running.{update_last}
use trax.Coordinator.Rules.Chain.{Chain}
use trax.Coordinator.Rules.Focus.{Focus}
use trax.Coordinator.Soundness.Shapes.{Forward}
use trax.Coordinator.Soundness.Held.{Becomes, Inside}

-- The histories with the end of the last log written.
abbrev pub concluded : ℕ → List SagaStepExecutionLog → List SagaStepExecutionLog
concluded now history = update_last (λ log. record log { log_conclusion_ts = now }) history

-- The step as it fails.
abbrev pub expired : ℕ → SagaStepInstance → SagaStepInstance
expired now here = record here {
  state = execution_failed;
  execution_history = concluded now here.execution_history;
}

module _ (g : String) (t : Tables) (before : List SagaStepInstance) (here : SagaStepInstance)
    (after : List SagaStepInstance) (now : ℕ) (f : Forward before here after) where
  R : Unit {0} → World → Type 0
  R _ v = Inside t (Becomes g running (before ++ expired now here ∷ after)) v
