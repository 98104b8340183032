-- ===== src/Submitter/Outputs.antt =====
-- The outputs that extractOutputsFromSteps (pkg/trax/submitter.go, pkg/trax/sub_saga_executor.go)
-- and extractCompensationOutputsFromSteps (pkg/trax/sub_saga_executor.go) combine. Decoding a text
-- as JSON is a parameter.

use trax.Prelude.{
  arith, String, ◌≡◌, refl, sym, ap, ◌∙◌, Bool, true, false, Option, none, some, List, [], ◌∷◌,
  ◌++◌, ◌==◌, ◌||◌, if◌then◌else◌,
}
use trax.State.{SagaStepState, step_is, execution_succeeded, execution_done, compensation_done}
use trax.Model.{StringMap, map_get, map_put, map_put_all}
use trax.Model.Maps.{last_of, map_get-map_put_all}

-- The fields of a step in the answer of traxctrl that the functions read.
pub record ListedStep : Type 0 where
  pub state : SagaStepState
  pub result : String
  pub compensation_result : String

module _ (decode : String → Option StringMap) where
  -- The text is empty or does not decode, or its entries are merged.
  abbrev merged : StringMap → Option StringMap → StringMap
  merged outputs none = outputs
  merged outputs (some m) = map_put_all outputs m

  unfoldable pub merge_result : StringMap → String → StringMap
  merge_result outputs text = if text == "" then outputs else merged outputs (decode text)

  unfoldable pub outputs_from : StringMap → List ListedStep → StringMap
  unfolding merge_result
  outputs_from outputs [] = outputs
  outputs_from outputs (s ∷ steps) =
      outputs_from
        (if step_is s.state execution_succeeded || step_is s.state execution_done
          then merge_result outputs s.result
          else outputs)
        steps

  unfoldable pub extract_outputs_from_steps : List ListedStep → StringMap
  unfolding outputs_from
  extract_outputs_from_steps = outputs_from []

  unfoldable pub compensation_outputs_from : StringMap → List ListedStep → StringMap
  unfolding merge_result
  compensation_outputs_from outputs [] = outputs
  compensation_outputs_from outputs (s ∷ steps) =
      compensation_outputs_from
        (if step_is s.state compensation_done
          then merge_result outputs s.compensation_result
          else outputs)
        steps

  unfoldable pub extract_compensation_outputs_from_steps : List ListedStep → StringMap
  unfolding compensation_outputs_from
  extract_compensation_outputs_from_steps = compensation_outputs_from []

  -- The entries that a text stands for.
  abbrev entries_or : Option StringMap → StringMap
  entries_or none = []
  entries_or (some m) = m

  abbrev entries_of : String → StringMap
  entries_of text = if text == "" then [] else entries_or (decode text)

  -- The entries of the results of all steps that have succeeded, in order.
  abbrev pub all_entries : List ListedStep → StringMap
  all_entries [] = []
  all_entries (s ∷ steps) =
      (if step_is s.state execution_succeeded || step_is s.state execution_done
        then entries_of s.result
        else [])
      ++ all_entries steps

  -- The entries of the compensation results of all steps that are compensated, in order.
  abbrev pub all_compensation_entries : List ListedStep → StringMap
  all_compensation_entries [] = []
  all_compensation_entries (s ∷ steps) =
      (if step_is s.state compensation_done then entries_of s.compensation_result else [])
      ++ all_compensation_entries steps

  map_put_all-append :
      (m a b : StringMap) → map_put_all m (a ++ b) ≡ map_put_all (map_put_all m a) b
  unfolding map_put_all
  map_put_all-append m [] b = refl
  map_put_all-append m ((k, v) ∷ a) b = map_put_all-append (map_put k v m) a b

  merge_result-entries :
      (outputs : StringMap) (text : String)
      → merge_result outputs text ≡ map_put_all outputs (entries_of text)
  unfolding merge_result map_put_all
  merge_result-entries outputs text = ground (arith)

  chosen :
      (b : Bool) (outputs : StringMap) (text : String)
      → (if b then merge_result outputs text else outputs)
        ≡ map_put_all outputs (if b then entries_of text else [])
  unfolding map_put_all
  chosen true outputs text = merge_result-entries outputs text
  chosen false outputs text = refl

  outputs_from-entries :
      (outputs : StringMap) (steps : List ListedStep)
      → outputs_from outputs steps ≡ map_put_all outputs (all_entries steps)
  unfolding outputs_from map_put_all
  outputs_from-entries outputs [] = refl
  outputs_from-entries outputs (s ∷ steps) =
      outputs_from-entries
        (if step_is s.state execution_succeeded || step_is s.state execution_done
          then merge_result outputs s.result
          else outputs)
        steps
      ∙ ap (λ m. map_put_all m (all_entries steps)) (chosen _ outputs s.result)
      ∙ sym (
          map_put_all-append outputs
            (if step_is s.state execution_succeeded || step_is s.state execution_done
              then entries_of s.result
              else [])
            (all_entries steps))

  compensation_outputs_from-entries :
      (outputs : StringMap) (steps : List ListedStep)
      → compensation_outputs_from outputs steps
        ≡ map_put_all outputs (all_compensation_entries steps)
  unfolding compensation_outputs_from map_put_all
  compensation_outputs_from-entries outputs [] = refl
  compensation_outputs_from-entries outputs (s ∷ steps) =
      compensation_outputs_from-entries
        (if step_is s.state compensation_done
          then merge_result outputs s.compensation_result
          else outputs)
        steps
      ∙ ap (λ m. map_put_all m (all_compensation_entries steps))
          (chosen _ outputs s.compensation_result)
      ∙ sym (
          map_put_all-append outputs
            (if step_is s.state compensation_done then entries_of s.compensation_result else [])
            (all_compensation_entries steps))

  -- The outputs of a saga have for each key the last value among the results of the steps that are
  -- EXECUTION_SUCCEEDED or EXECUTION_DONE, in the order of the list; results that are empty or do
  -- not decode count for nothing, and so do those of all other steps. The outputs of a
  -- compensation have the last value among the compensation results of the steps that are
  -- COMPENSATION_DONE.
  pub outputs-last_of :
      (key : String) (steps : List ListedStep)
      → (map_get key (extract_outputs_from_steps steps) ≡ last_of key (all_entries steps) none)
        × (map_get key (extract_compensation_outputs_from_steps steps)
            ≡ last_of key (all_compensation_entries steps) none)
  unfolding extract_outputs_from_steps extract_compensation_outputs_from_steps map_get
  outputs-last_of key steps = (
    ap (map_get key) (outputs_from-entries [] steps)
        ∙ map_get-map_put_all key [] (all_entries steps),
    ap (map_get key) (compensation_outputs_from-entries [] steps)
        ∙ map_get-map_put_all key [] (all_compensation_entries steps),
  )
