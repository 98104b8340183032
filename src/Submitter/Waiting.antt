-- ===== src/Submitter/Waiting.antt =====
-- Waiting for a saga: WaitForSagaCompletion of pkg/trax/submitter.go and pollForCompletion of
-- pkg/trax/sub_saga_executor.go. A round of the loop is what its `select` gets: the end of the
-- context, or a tick with the time and what the calls of traxctrl answer.
pub mod Endings
pub mod Missing
use trax.Prelude.{
  ℕ, zero, suc, ◌≤◌, ◌<◌, ◌≡◌, refl, sym, ap, subst, ◌∙◌, ◌⊎◌, Bool, Bool-cases, true, false,
  Option, none, some, List, [], ◌∷◌, ◌++◌, not, ◌&&◌, String, All, inl, inr, arith, leb, ltb,
  length, if◌then◌else◌,
}
use trax.State.{
  SagaState, unknown, running, committed, compensated, blocked, invalid_state,
  compensation_requested, paused, cancelled,
}
use trax.Model.{StringMap}

-- The answers in one round: the state of the saga, the outputs and the compensation outputs; none
-- where the call fails.
pub data Round : Type 0 where
  context_done : Round
  tick : ℕ → Option SagaState → Option StringMap → Option StringMap → Round

-- How the wait ends: with a result, whose error is set unless the saga is committed, or with an
-- error alone.
pub data Ending : Type 0 where
  context_error timeout no_outputs : Ending
  never_found : ℕ → Ending
  completed : SagaState → StringMap → Ending

abbrev pub committed_or : Option StringMap → Ending
committed_or none = no_outputs
committed_or (some outputs) = completed committed outputs

abbrev pub outputs_or_none : Option StringMap → StringMap
outputs_or_none none = []
outputs_or_none (some outputs) = outputs

-- The states in which the loop ends; `extracts` says that it reads the compensation outputs too.
abbrev pub ending_of : Bool → SagaState → Option StringMap → Option StringMap → Option Ending
ending_of extracts committed o c = some (committed_or o)
ending_of extracts compensated o c =
    some (completed compensated (if extracts then outputs_or_none c else []))
ending_of extracts blocked o c = some (completed blocked [])
ending_of extracts invalid_state o c = some (completed invalid_state [])
ending_of extracts _ o c = none

abbrev pub end_or : Option Ending → Option Ending → Option Ending
end_or none later = later
end_or (some e) later = some e

-- `none` means that the wait goes on after these rounds.
unfoldable pub wait_for_saga_completion : ℕ → List Round → Option Ending
wait_for_saga_completion deadline [] = none
wait_for_saga_completion deadline (context_done ∷ rounds) = some context_error
wait_for_saga_completion deadline (tick now none o c ∷ rounds) =
    let later = wait_for_saga_completion deadline rounds in
    if ltb deadline now then some timeout else later
wait_for_saga_completion deadline (tick now (some s) o c ∷ rounds) =
    let later = wait_for_saga_completion deadline rounds in
    if ltb deadline now then some timeout else end_or (ending_of false s o c) later

-- maxConsecutiveErrors
abbrev pub max_consecutive_errors : ℕ
max_consecutive_errors = 15

-- `errors` is consecutiveErrors and `seen` everFoundSaga.
unfoldable pub poll_from : ℕ → ℕ → Bool → List Round → Option Ending
poll_from deadline errors seen [] = none
poll_from deadline errors seen (context_done ∷ rounds) = some context_error
poll_from deadline errors seen (tick now none o c ∷ rounds) =
    let later = poll_from deadline (suc errors) seen rounds in
    if ltb deadline now
    then some timeout
    else if not seen && leb max_consecutive_errors (suc errors)
    then some (never_found (suc errors))
    else later
poll_from deadline errors seen (tick now (some s) o c ∷ rounds) =
    let later = poll_from deadline 0 true rounds in
    if ltb deadline now then some timeout else end_or (ending_of true s o c) later

unfoldable pub poll_for_completion : ℕ → List Round → Option Ending
unfolding poll_from
poll_for_completion deadline = poll_from deadline 0 false

-- The wait must end in the round: the context is done or the deadline has passed.
abbrev pub IsLast : ℕ → Round → Type 0
IsLast deadline context_done = Unit
IsLast deadline (tick now s o c) = deadline < now

-- A round that keeps the loop going: in time, and with no answer or a state that is not final.
abbrev pub GoesOn : ℕ → Round → Type 0
GoesOn deadline context_done = ⊥
GoesOn deadline (tick now none o c) = now ≤ deadline
GoesOn deadline (tick now (some s) o c) = (now ≤ deadline) × (ending_of false s o c ≡ none)

ends_or_later :
    (o later : Option Ending)
    → (e : Ending) × (later ≡ some e)
    → (e : Ending) × (end_or o later ≡ some e)
ends_or_later none later h = h
ends_or_later (some e) later h = (e, refl)

-- The wait ends no later than in a round in which it must: the context is done, or the deadline
-- has passed.
pub wait_for_saga_completion-ends :
    (deadline : ℕ) (before : List Round) (last : Round) (after : List Round)
    → IsLast deadline last
    → (e : Ending) × (wait_for_saga_completion deadline (before ++ last ∷ after) ≡ some e)
unfolding wait_for_saga_completion
wait_for_saga_completion-ends deadline [] context_done after h = (context_error, refl)
wait_for_saga_completion-ends deadline [] (tick now none o c) after h = (timeout, ground (arith, h))
wait_for_saga_completion-ends deadline [] (tick now (some s) o c) after h =
    (timeout, ground (arith, h))
wait_for_saga_completion-ends deadline (context_done ∷ before) last after h = (context_error, refl)
wait_for_saga_completion-ends deadline (tick now none o c ∷ before) last after h =
    elim (Bool-cases (ltb deadline now)) [
      | inl e ↦ (timeout, rw e refl)
      | inr e ↦ rw e (wait_for_saga_completion-ends deadline before last after h)
    ]
wait_for_saga_completion-ends deadline (tick now (some s) o c ∷ before) last after h =
    elim (Bool-cases (ltb deadline now)) [
      | inl e ↦ (timeout, rw e refl)
      | inr e ↦ rw e (
          ends_or_later (ending_of false s o c) _
            (wait_for_saga_completion-ends deadline before last after h))
    ]
