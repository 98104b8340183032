-- ===== src/Sequence.antt =====
-- OrderSagaStepsInSequence and getPreviousStepsInOrder of pkg/trax/coordinator.go.
pub mod Natural
pub mod Chains
pub mod Order
use trax.Prelude.{
  ℕ, zero, suc, String, Option, none, some, List, [], ◌∷◌, ◌==◌, length, find?, if◌then◌else◌,
}
use trax.Model.{SagaStepInstance}

-- A later entry stands; else this step is the entry for its own id.
abbrev pub later_or : SagaStepInstance → String → Option SagaStepInstance → Option SagaStepInstance
later_or s id none = if s.instance_id == id then some s else none
later_or s id (some t) = some t

-- `stepMap[id]`: of the steps with one id the last was stored.
unfoldable pub step_map : List SagaStepInstance → String → Option SagaStepInstance
step_map [] id = none
step_map (s ∷ steps) id = later_or s id (step_map steps id)

abbrev pub cons_to {ℓ} : {A : Type ℓ} → A → Option (List A) → Option (List A)
cons_to x none = none
cons_to x (some xs) = some (x ∷ xs)

-- The step that the loop goes to: none at the end and where the chain is broken.
unfoldable pub next_step : List SagaStepInstance → SagaStepInstance → Option SagaStepInstance
unfolding step_map
next_step steps s =
    if s.next_saga_step_instance_id == "" then none else step_map steps s.next_saga_step_instance_id

-- The loop from `currentStep`. `none` means that the fuel ran out.
unfoldable pub follow :
    ℕ → List SagaStepInstance → SagaStepInstance → Option (List SagaStepInstance)
follow zero steps current = none
follow (suc fuel) steps current = elim (next_step steps current) [
  | none ↦ some (current ∷ [])
  | some s ↦ cons_to current (follow fuel steps s)
]

-- The first step that has no previous one.
unfoldable pub first_step : List SagaStepInstance → Option SagaStepInstance
first_step = find? (λ s. s.previous_saga_step_instance_id == "")

-- The fuel is the number of steps: a chain that is longer has come back to a step, and the
-- program's loop does not end.
unfoldable pub order_saga_steps_in_sequence : List SagaStepInstance → Option (List SagaStepInstance)
order_saga_steps_in_sequence steps = elim (first_step steps) [
  | none ↦ some steps
  | some s ↦ follow (length steps) steps s
]

-- The steps before the first with the given id.
unfoldable pub until_step : String → List SagaStepInstance → List SagaStepInstance
until_step id [] = []
until_step id (s ∷ steps) = if s.instance_id == id then [] else s ∷ until_step id steps

unfoldable pub get_previous_steps_in_order :
    List SagaStepInstance → SagaStepInstance → Option (List SagaStepInstance)
get_previous_steps_in_order steps current = elim (order_saga_steps_in_sequence steps) [
  | none ↦ none
  | some ordered ↦ some (until_step current.instance_id ordered)
]
