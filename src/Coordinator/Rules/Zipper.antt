-- ===== src/Coordinator/Rules/Zipper.antt =====
-- A chain split at one of its steps, and updates of that step.
use mathlib.Core.List.{append_assoc}
use trax.Prelude.{String, ◌≡◌, refl, subst, some, List, [], ◌∷◌, ◌++◌, All}
use trax.State.{SagaState, SagaStepState}
use trax.Model.{SagaInstance, SagaStepInstance}
use trax.Sequence.Natural.{SameLinks}
use trax.Store.{Tables}
use trax.Store.Rows.{
  with_state, update_steps, update_sagas, set_step_state, set_saga_state, saga_row, step_row,
  steps_of_saga,
}
use trax.Coordinator.Rules.Chain.{Chain, Chain-update, Distinct-at, map-at_id}
use trax.Coordinator.Rules.Transitions.{with_state-SameLinks, saga_state}

pub All-at {ℓ} :
    {A : Type ℓ} (P : A → Type 0) (before : List A) (here : A) (after : List A)
    → All P (before ++ here ∷ after)
    → P here
All-at P [] here after h = h.0
All-at P (s ∷ before) here after h = All-at P before here after h.1

-- Moving the split one step on.
pub move_on {ℓ} :
    {A : Type ℓ} (before : List A) (here next : A) (after : List A)
    → (before ++ here ∷ []) ++ next ∷ after ≡ before ++ here ∷ next ∷ after
move_on before here next after = append_assoc before (here ∷ []) (next ∷ after)

pub snoc_append {ℓ} :
    {A : Type ℓ} (before : List A) (here : A) (after : List A)
    → (before ++ here ∷ []) ++ after ≡ before ++ here ∷ after
snoc_append before here after = append_assoc before (here ∷ []) after

module _ (g : String) (t : Tables) where
  -- A change of a saga's row is no change to the steps.
  pub Chain-set_saga_state :
      (saga : SagaInstance) (state : SagaState) (steps : List SagaStepInstance)
      → Chain g t steps
      → Chain g (set_saga_state saga state t) steps
  unfolding set_saga_state update_sagas steps_of_saga step_row
  Chain-set_saga_state saga state steps c = record {
    ordered = c.ordered;
    distinct = c.distinct;
    rows = c.rows;
    listed = c.listed;
  }

  -- A change of a step's row is no change to the sagas.
  pub saga_state-update_steps :
      (id : String) (f : SagaStepInstance → SagaStepInstance)
      → saga_state g (update_steps id f t) ≡ saga_state g t
  unfolding update_steps saga_row
  saga_state-update_steps id f = refl

  pub saga_state-set_step_state :
      (id : String) (state : SagaStepState)
      → saga_state g (set_step_state id state t) ≡ saga_state g t
  unfolding set_step_state update_steps saga_row
  saga_state-set_step_state id state = refl

module _ (g : String) (t : Tables) (before : List SagaStepInstance) (here : SagaStepInstance)
    (after : List SagaStepInstance) (c : Chain g t (before ++ here ∷ after)) where
  pub Chain-row : step_row here.instance_id t ≡ some here
  Chain-row = All-at (λ s. step_row s.instance_id t ≡ some s) before here after c.rows

  pub Chain-update_here :
      (f : SagaStepInstance → SagaStepInstance)
      → ((s : SagaStepInstance) → SameLinks (f s) s)
      → Chain g (update_steps here.instance_id f t) (before ++ f here ∷ after)
  Chain-update_here f links =
      subst (Chain g (update_steps here.instance_id f t))
        (map-at_id f before here after (Distinct-at before here after c.distinct))
        (Chain-update f links g here.instance_id t (before ++ here ∷ after) c)

  pub Chain-set_step_state :
      (state : SagaStepState)
      → Chain g (set_step_state here.instance_id state t) (before ++ with_state state here ∷ after)
  unfolding set_step_state
  Chain-set_step_state state = Chain-update_here (with_state state) (with_state-SameLinks state)
