-- ===== src/Store/Laws.antt =====
-- What the statements of pkg/trax/store_psql.go do to what is read afterwards.
use mathlib.Core.Option
use trax.Prelude.{String, ◌≡◌, refl, List, [], ◌∷◌, map, ◌==◌, arith, find?, keep, if◌then◌else◌}
use trax.State.{SagaState}
use trax.Model.{SagaInstance, SagaStepInstance}
use trax.Sequence.Natural.{SameLinks}
use trax.Store.{Tables}
use trax.Store.Rows.{
  at_id, update_steps, with_saga_state, set_saga_state, saga_row, step_row, steps_of_saga,
}

module _ (f : SagaStepInstance → SagaStepInstance)
    (links : (s : SagaStepInstance) → SameLinks (f s) s) (id : String) where
  -- A change of one row keeps the links of every row.
  pub at_id-SameLinks : (s : SagaStepInstance) → SameLinks (at_id id f s) s
  at_id-SameLinks s = ground (arith, links s)

  keep-map :
      (g : String) (steps : List SagaStepInstance)
      → keep (λ s. s.saga_instance_id == g) (map (at_id id f) steps)
        ≡ map (at_id id f) (keep (λ s. s.saga_instance_id == g) steps)
  keep-map g [] = refl
  keep-map g (s ∷ steps) = ground (arith, keep-map g steps, at_id-SameLinks s)

  pub steps_of_saga-update_steps :
      (g : String) (t : Tables)
      → steps_of_saga g (update_steps id f t) ≡ map (at_id id f) (steps_of_saga g t)
  unfolding steps_of_saga update_steps
  steps_of_saga-update_steps g t = keep-map g t.steps

  pub find_id-map :
      (j : String) (steps : List SagaStepInstance)
      → find? (λ s. s.instance_id == j) (map (at_id id f) steps)
        ≡ Option.map (at_id id f) (find? (λ s. s.instance_id == j) steps)
  find_id-map j [] = refl
  find_id-map j (s ∷ steps) = ground (arith, find_id-map j steps, at_id-SameLinks s)

  pub step_row-update_steps :
      (j : String) (t : Tables)
      → step_row j (update_steps id f t) ≡ Option.map (at_id id f) (step_row j t)
  unfolding step_row update_steps
  step_row-update_steps j t = find_id-map j t.steps

set_row :
    (saga : SagaInstance) (state : SagaState) (rows : List SagaInstance)
    → find?
        (λ s. s.instance_id == saga.instance_id)
        (map
          (λ s. if s.instance_id == saga.instance_id then with_saga_state saga state s else s)
          rows)
      ≡ Option.map
          (with_saga_state saga state)
          (find? (λ s. s.instance_id == saga.instance_id) rows)
set_row saga state [] = refl
set_row saga state (s ∷ rows) = ground (arith, set_row saga state rows)

-- The row of a saga, once its state is set.
pub saga_row-set_saga_state :
    (saga : SagaInstance) (state : SagaState) (t : Tables)
    → saga_row saga.instance_id (set_saga_state saga state t)
      ≡ Option.map (with_saga_state saga state) (saga_row saga.instance_id t)
unfolding saga_row set_saga_state
saga_row-set_saga_state saga state t = set_row saga state t.sagas
