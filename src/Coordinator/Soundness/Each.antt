-- ===== src/Coordinator/Soundness/Each.antt =====
-- Tests that hold of every step of a part of a picture.
use trax.Prelude.{◌≡◌, ap, ◌∙◌, inl, inr, Bool, true, List, [], ◌∷◌, All}
use trax.State.{SagaStepState, execution_pending, execution_aborted, compensation_done}
use trax.Model.{SagaStepInstance}
use trax.Coordinator.Soundness.Shapes.{Are, Waiting, Undone}

module _ (p : SagaStepState → Bool) where
  -- The test holds of each state.
  abbrev pub Pass : List SagaStepInstance → Type 0
  Pass = All λ s. p s.state ≡ true

  pub Are-Pass :
      (state : SagaStepState) (steps : List SagaStepInstance)
      → p state ≡ true
      → Are state steps
      → Pass steps
  Are-Pass state [] e h = tt
  Are-Pass state (s ∷ steps) e h = (ap p h.0 ∙ e, Are-Pass state steps e h.1)

  pub Waiting-Pass :
      (steps : List SagaStepInstance) → p execution_pending ≡ true → All Waiting steps → Pass steps
  Waiting-Pass [] e h = tt
  Waiting-Pass (s ∷ steps) e h = (ap p h.0.0 ∙ e, Waiting-Pass steps e h.1)

  pub Undone-Pass :
      (steps : List SagaStepInstance)
      → p compensation_done ≡ true
      → p execution_aborted ≡ true
      → Undone steps
      → Pass steps
  Undone-Pass [] d a h = tt
  Undone-Pass (s ∷ steps) d a (inl h) = (ap p h.0 ∙ d, Undone-Pass steps d a h.1)
  Undone-Pass (s ∷ steps) d a (inr h) = Are-Pass execution_aborted (s ∷ steps) a h
