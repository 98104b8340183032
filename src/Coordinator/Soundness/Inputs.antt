-- ===== src/Coordinator/Soundness/Inputs.antt =====
-- The input of an execution request: the input of the saga and the results of the previous steps.
use trax.Prelude.{
  String, ◌≡◌, refl, sym, ap, subst, ◌∙◌, Option, none, some, List, [], ◌∷◌, ◌++◌, eq_refl,
}
use trax.State.{execution_done}
use trax.Model.{SagaStepInstance, StringMap, map_get, map_put_all}
use trax.Model.Maps.{last_of, map_get-map_put_all}
use trax.Sequence.{until_step, get_previous_steps_in_order}
use trax.Sequence.Chains.{Absent}
use trax.Store.{World, ok, pure}
use trax.Store.Rows.{steps_of_saga}
use trax.Coordinator.Running.{collect_results}
use trax.Coordinator.Rules.Chain.{Chain, Distinct-at}
use trax.Coordinator.Soundness.Shapes.{Are}
use trax.Coordinator.Soundness.Held.{step_is-eq_to}

-- A map with the results of some steps merged into it, one after the other.
abbrev pub gathered : StringMap → List SagaStepInstance → StringMap
gathered input [] = input
gathered input (s ∷ steps) = gathered (map_put_all input s.result) steps

-- What the steps say of a key, the last of them first, and otherwise a default.
abbrev pub last_result : String → List SagaStepInstance → Option String → Option String
last_result key [] o = o
last_result key (s ∷ steps) o = last_result key steps (last_of key s.result o)

pub map_get-gathered :
    (key : String) (input : StringMap) (steps : List SagaStepInstance)
    → map_get key (gathered input steps) ≡ last_result key steps (map_get key input)
map_get-gathered key input [] = refl
map_get-gathered key input (s ∷ steps) =
    map_get-gathered key (map_put_all input s.result) steps
    ∙ ap (last_result key steps) (map_get-map_put_all key input s.result)

pub collect_results-Are :
    (input : StringMap) (steps : List SagaStepInstance) (w : World)
    → Are execution_done steps
    → collect_results input steps w ≡ (ok (gathered input steps), w)
unfolding collect_results pure
collect_results-Are input [] w d = refl
collect_results-Are input (s ∷ steps) w d =
    rw (step_is-eq_to s execution_done d.0)
      (collect_results-Are (map_put_all input s.result) steps w d.1)

until_step-append :
    (before : List SagaStepInstance) (here : SagaStepInstance) (after : List SagaStepInstance)
    → Absent here.instance_id before
    → until_step here.instance_id (before ++ here ∷ after) ≡ before
unfolding until_step
until_step-append [] here after h = rw (eq_refl here.instance_id) refl
until_step-append (s ∷ before) here after h = rw (h.0, until_step-append before here after h.1) refl

-- The steps before one of a chain.
pub previous-Chain :
    (g : String) (w : World) (before : List SagaStepInstance) (here : SagaStepInstance)
    (after : List SagaStepInstance)
    → Chain g w.tables (before ++ here ∷ after)
    → get_previous_steps_in_order (steps_of_saga g w.tables) here ≡ some before
unfolding get_previous_steps_in_order
previous-Chain g w before here after c =
    subst
      (λ o.
        (elim o [ none ↦ none | some ordered ↦ some (until_step here.instance_id ordered) ])
        ≡ some before)
      (sym c.ordered)
      (ap some (until_step-append before here after (Distinct-at before here after c.distinct).0))
