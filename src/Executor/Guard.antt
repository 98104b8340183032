-- ===== src/Executor/Guard.antt =====
-- The guard of pkg/trax/executor.go: what a request finds in the maps `inFlightExec` and
-- `inFlightComp`, and what becomes of it.
use Prim.Native.String.{◌++◌}
use trax.Prelude.{String, Bool, false, not, List, [], ◌==◌, any, keep, if◌then◌else◌}
use trax.State.{ExecutionResultStatus, in_execution, error}
use trax.Model.{StringMap}
use trax.Executor.{
  SagaIdempotencyKeyStatus, unknown, not_seen, in_progress, completed, StatusAnswer, status,
  status_error, Kind, execution, compensation, with_error,
}

-- The request is answered at once, or the service is called: by the handler itself, or by a
-- goroutine, while the handler answers that the step is in execution.
pub data Start : Type 0 where
  answer_now : ExecutionResultStatus × StringMap → Start
  run_here run_detached : Start

-- The keys of a map of entries in flight.
abbrev pub is_in_flight : List String → String → Bool
is_in_flight keys key = any (λ k. k == key) keys

-- `delete(m, key)`
unfoldable pub release : String → List String → List String
release key keys = keep (λ k. not (k == key)) keys

abbrev pub in_execution_now : ExecutionResultStatus × StringMap
in_execution_now = (in_execution, [])

abbrev busy : Start
busy = answer_now in_execution_now

-- A key that is not in flight in this process.
unfoldable pub start_free : Bool → SagaIdempotencyKeyStatus → Start
start_free sub unknown = busy
start_free sub in_progress = if sub then run_detached else busy
start_free sub not_seen = if sub then run_detached else run_here
start_free sub completed = if sub then run_detached else run_here

unfoldable pub start_execution : Bool → List String → String → StatusAnswer → Start
unfolding start_free
start_execution sub keys key (status_error text) = answer_now (
  error,
  with_error (
      "failed to check if saga step instance with idempotent key '"
      ++ (key ++ ("' has already been executed: " ++ text))),
)
start_execution sub keys key (status s) = if is_in_flight keys key then busy else start_free sub s

-- Compensations are never detached, and one from a previous process is not run again.
unfoldable pub start_compensation : List String → String → StatusAnswer → Start
unfolding start_free
start_compensation keys key (status_error text) = answer_now (
  error,
  with_error (
      "failed to check if saga step instance with idempotent key '"
      ++ (key ++ ("' has already been compensated: " ++ text))),
)
start_compensation keys key (status s) = if is_in_flight keys key then busy else start_free false s

unfoldable pub start_job : Kind → Bool → List String → String → StatusAnswer → Start
unfolding start_execution start_compensation
start_job execution sub = start_execution sub
start_job compensation sub = start_compensation
