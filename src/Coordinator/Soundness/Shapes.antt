-- ===== src/Coordinator/Soundness/Shapes.antt =====
-- The states in which the handlers of pkg/trax/coordinator.go leave a saga: the patterns that the
-- comment in isSagaStateValid lists, with the state of the saga that goes with each.
use trax.Prelude.{String, ◌≡◌, ◌⊎◌, Bool, true, false, some, List, [], ◌∷◌, ◌++◌, All, get_last?}
use trax.State.{
  SagaStepState, execution_pending, execution_candidate, execution_running, execution_succeeded,
  execution_done, execution_failed, execution_aborted, compensation_pending, compensation_candidate,
  compensation_running, compensation_succeeded, compensation_done, compensation_failed,
  compensation_blocked, running, committed, compensated, blocked, compensation_requested,
}
use trax.Model.{SagaStepInstance, SagaStepExecutionLog}
use trax.Store.{Tables}
use trax.Coordinator.Rules.Chain.{Chain}
use trax.Coordinator.Rules.Transitions.{saga_state}

-- All the steps are in the state.
abbrev pub Are : SagaStepState → List SagaStepInstance → Type 0
Are state = All λ s. s.state ≡ state

-- A step that was not touched yet.
abbrev pub Waiting : SagaStepInstance → Type 0
Waiting s = (s.state ≡ execution_pending) × (s.execution_history ≡ [])

-- COMPENSATION_DONE* EXECUTION_ABORTED*
abbrev pub Undone : List SagaStepInstance → Type 0
Undone [] = Unit
Undone (s ∷ steps) =
    ((s.state ≡ compensation_done) × Undone steps) ⊎ Are execution_aborted (s ∷ steps)

-- The last log is one of an execution (false) or of a compensation (true).
abbrev pub LastIs : Bool → List SagaStepExecutionLog → Type 0
LastIs b history =
    (log : SagaStepExecutionLog) × (get_last? history ≡ some log) × (log.is_compensation ≡ b)

-- The step that a saga going forward has come to.
abbrev pub ForwardHere : SagaStepInstance → SagaStepState → Type 0
ForwardHere s execution_candidate = s.execution_history ≡ []
ForwardHere s execution_running = LastIs false s.execution_history
ForwardHere s execution_succeeded = Unit
ForwardHere s execution_failed = Unit
ForwardHere s _ = ⊥

-- The step that a saga going backward has come to.
abbrev pub BackwardHere : SagaStepInstance → SagaStepState → Type 0
BackwardHere s compensation_candidate = Unit
BackwardHere s compensation_running = LastIs true s.execution_history
BackwardHere s compensation_succeeded = Unit
BackwardHere s compensation_failed = Unit
BackwardHere s _ = ⊥

module _ (before : List SagaStepInstance) (here : SagaStepInstance)
    (after : List SagaStepInstance) where
  pub record Forward : Type 0 where
    pub done : Are execution_done before
    pub active : ForwardHere here here.state
    pub waiting : All Waiting after

  pub record Backward : Type 0 where
    pub pending : Are compensation_pending before
    pub active : BackwardHere here here.state
    pub undone : Undone after

-- The rows of saga `g` are one of the legal pictures.
pub data Sound (g : String) (t : Tables) : Type 0 where
  forward :
      (before : List SagaStepInstance) (here : SagaStepInstance) (after : List SagaStepInstance)
      → Chain g t (before ++ here ∷ after)
      → saga_state g t ≡ some running
      → Forward before here after
      → Sound g t
  backward :
      (before : List SagaStepInstance) (here : SagaStepInstance) (after : List SagaStepInstance)
      → Chain g t (before ++ here ∷ after)
      → saga_state g t ≡ some running
      → Backward before here after
      → Sound g t
  finished :
      (before : List SagaStepInstance) (here : SagaStepInstance)
      → Chain g t (before ++ here ∷ [])
      → (saga_state g t ≡ some committed) ⊎ (saga_state g t ≡ some compensation_requested)
      → Are execution_done before
      → here.state ≡ execution_done
      → Sound g t
  undone :
      (first : SagaStepInstance) (after : List SagaStepInstance)
      → Chain g t (first ∷ after)
      → saga_state g t ≡ some compensated
      → first.state ≡ compensation_done
      → Undone after
      → Sound g t
  stuck :
      (before : List SagaStepInstance) (here : SagaStepInstance) (after : List SagaStepInstance)
      → Chain g t (before ++ here ∷ after)
      → saga_state g t ≡ some blocked
      → Are compensation_pending before
      → here.state ≡ compensation_blocked
      → Undone after
      → Sound g t
