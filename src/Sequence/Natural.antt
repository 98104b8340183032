-- ===== src/Sequence/Natural.antt =====
-- Ordering the steps of pkg/trax/coordinator.go reads only their ids and links, so it commutes
-- with any change that keeps these.
use mathlib.Core.Option
use trax.Prelude.{
  ℕ, zero, suc, String, ◌≡◌, refl, Option, none, some, List, [], ◌∷◌, map, arith, inl, inr,
  Option-cases, length, length-map,
}
use trax.Model.{SagaStepInstance}
use trax.Sequence.{cons_to, step_map, next_step, follow, first_step, order_saga_steps_in_sequence}

-- The ids by which a step is found, listed and ordered are the same.
pub record SameLinks (s r : SagaStepInstance) : Type 0 where
  pub same_id : s.instance_id ≡ r.instance_id
  pub same_saga : s.saga_instance_id ≡ r.saga_instance_id
  pub same_previous : s.previous_saga_step_instance_id ≡ r.previous_saga_step_instance_id
  pub same_next : s.next_saga_step_instance_id ≡ r.next_saga_step_instance_id

module _ (f : SagaStepInstance → SagaStepInstance)
    (links : (s : SagaStepInstance) → SameLinks (f s) s) where
  step_map-map :
      (steps : List SagaStepInstance) (id : String)
      → step_map (map f steps) id ≡ Option.map f (step_map steps id)
  unfolding step_map
  step_map-map [] id = refl
  step_map-map (s ∷ steps) id = ground (arith, step_map-map steps id, (links s).same_id)

  next_step-map :
      (steps : List SagaStepInstance) (s : SagaStepInstance)
      → next_step (map f steps) (f s) ≡ Option.map f (next_step steps s)
  unfolding next_step
  next_step-map steps s =
      ground (arith, step_map-map steps s.next_saga_step_instance_id, (links s).same_next)

  cons_to-map :
      (s : SagaStepInstance) (o : Option (List SagaStepInstance))
      → cons_to (f s) (Option.map (map f) o) ≡ Option.map (map f) (cons_to s o)
  cons_to-map s none = refl
  cons_to-map s (some r) = refl

  follow-map :
      (fuel : ℕ) (steps : List SagaStepInstance) (s : SagaStepInstance)
      → follow fuel (map f steps) (f s) ≡ Option.map (map f) (follow fuel steps s)
  unfolding follow
  follow-map zero steps s = refl
  follow-map (suc fuel) steps s = elim (Option-cases (next_step steps s)) [
    | inl e ↦ rw (next_step-map steps s, follow) (rw (e, follow) refl)
    | inr (r, e) ↦
        rw (next_step-map steps s, follow)
          (rw (e, follow) (rw (follow-map fuel steps r) (cons_to-map s (follow fuel steps r))))
  ]

  first_step-map :
      (steps : List SagaStepInstance) → first_step (map f steps) ≡ Option.map f (first_step steps)
  unfolding first_step
  first_step-map [] = refl
  first_step-map (s ∷ steps) = ground (arith, first_step-map steps, (links s).same_previous)

  -- The order of changed steps is the order of the steps, changed.
  pub order-map :
      (steps : List SagaStepInstance)
      → order_saga_steps_in_sequence (map f steps)
        ≡ Option.map (map f) (order_saga_steps_in_sequence steps)
  unfolding order_saga_steps_in_sequence
  order-map steps = elim (Option-cases (first_step steps)) [
    | inl e ↦
        rw (first_step-map steps, order_saga_steps_in_sequence)
          (rw (e, order_saga_steps_in_sequence) refl)
    | inr (r, e) ↦
        rw (first_step-map steps, order_saga_steps_in_sequence)
          (rw (e, order_saga_steps_in_sequence)
            (rw (length-map f steps) (follow-map (length steps) steps r)))
  ]
