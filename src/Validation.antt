-- ===== src/Validation.antt =====
-- The tests of isSagaStateValid of pkg/trax/coordinator.go on the ordered steps of a saga. A
-- step's index is a position: the steps before it, the step, and the steps after it.
pub mod Patterns
use trax.Prelude.{
  String, Bool, true, false, Option, none, some, List, [], ◌∷◌, ◌==◌, ◌&&◌, not, all, map,
  if◌then◌else◌,
}
use trax.State.{
  SagaStepState, step_is, execution_pending, execution_candidate, execution_running,
  execution_succeeded, execution_done, execution_failed, execution_aborted, compensation_pending,
  compensation_candidate, compensation_running, compensation_succeeded, compensation_done,
  compensation_failed, compensation_blocked,
}
use trax.Model.{SagaStepInstance}

pub record Position : Type 0 where
  pub before : List SagaStepInstance
  pub here : SagaStepInstance
  pub after : List SagaStepInstance

abbrev pub shift : SagaStepInstance → Option Position → Option Position
shift s none = none
shift s (some p) = some (record p { before = s ∷ p.before })

-- The search loop for `currentStepIndex`; `none` is -1.
unfoldable pub locate : String → List SagaStepInstance → Option Position
locate id [] = none
locate id (s ∷ steps) =
    if s.instance_id == id
    then some (record { before = []; here = s; after = steps })
    else shift s (locate id steps)

unfoldable pub is_compensation_state : SagaStepState → Bool
is_compensation_state compensation_pending = true
is_compensation_state compensation_candidate = true
is_compensation_state compensation_running = true
is_compensation_state compensation_succeeded = true
is_compensation_state compensation_done = true
is_compensation_state compensation_failed = true
is_compensation_state compensation_blocked = true
is_compensation_state _ = false

-- C, R, S, F and D
unfoldable pub is_active : SagaStepState → Bool
is_active execution_candidate = true
is_active execution_running = true
is_active execution_succeeded = true
is_active execution_failed = true
is_active execution_done = true
is_active _ = false

unfoldable pub is_forward : SagaStepState → Bool
unfolding is_active
is_forward execution_pending = true
is_forward s = is_active s

-- The loop over the next steps; the first argument is `foundNonPending`.
unfoldable pub next_steps_pending : Bool → List SagaStepState → Bool
unfolding is_active
next_steps_pending found [] = true
next_steps_pending false (s ∷ rest) =
    if step_is s execution_pending
    then next_steps_pending false rest
    else is_active s && next_steps_pending true rest
next_steps_pending true (s ∷ rest) = step_is s execution_pending && next_steps_pending true rest

unfoldable pub validate_non_compensating_mode :
    List SagaStepState → SagaStepState → List SagaStepState → Bool
unfolding is_forward next_steps_pending
validate_non_compensating_mode before here after =
    is_forward here && all (λ s. step_is s execution_done) before && next_steps_pending false after

-- The loop over the next steps; the first argument is `foundAborted`.
unfoldable pub next_steps_compensated : Bool → List SagaStepState → Bool
unfolding is_compensation_state
next_steps_compensated found [] = true
next_steps_compensated found (s ∷ rest) =
    if step_is s execution_aborted
    then next_steps_compensated true rest
    else is_compensation_state s && not found && next_steps_compensated found rest

unfoldable pub validate_compensating_mode :
    List SagaStepState → SagaStepState → List SagaStepState → Bool
unfolding is_compensation_state next_steps_compensated
validate_compensating_mode before here after =
    is_compensation_state here
    && all (λ s. step_is s compensation_pending) before
    && next_steps_compensated false after

unfoldable pub any_compensation : List SagaStepState → Bool
unfolding is_compensation_state
any_compensation [] = false
any_compensation (s ∷ rest) = if is_compensation_state s then true else any_compensation rest

abbrev pub states : List SagaStepInstance → List SagaStepState
states = map (λ s. s.state)

-- The choice of the mode. A step that is not among the ordered ones makes the saga invalid.
unfoldable pub valid_at : List SagaStepInstance → Option Position → Bool
unfolding any_compensation validate_compensating_mode validate_non_compensating_mode
valid_at ordered none = false
valid_at ordered (some p) =
    if any_compensation (states ordered)
    then validate_compensating_mode (states p.before) p.here.state (states p.after)
    else validate_non_compensating_mode (states p.before) p.here.state (states p.after)

-- isSagaStateValid from the ordered steps on. The test for no steps at all comes before.
unfoldable pub ordered_steps_valid : String → List SagaStepInstance → Bool
unfolding valid_at
ordered_steps_valid id ordered = valid_at ordered (locate id ordered)
