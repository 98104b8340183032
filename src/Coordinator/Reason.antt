-- ===== src/Coordinator/Reason.antt =====
-- extractCompensationReason of pkg/trax/coordinator.go.
use Prim.Native.String.{◌++◌}
use trax.Prelude.{String, Option, none, some, List, [], ◌∷◌, ◌==◌, if◌then◌else◌}
use trax.Model.{SagaStepInstance, SagaStepExecutionLog, map_get}

abbrev or_empty : Option String → String
or_empty none = ""
or_empty (some s) = s

-- `ok && errMsg != ""` of the entry "error" is that the entry, "" if it is missing, is not empty.
unfoldable pub error_entry : SagaStepExecutionLog → String
error_entry log = or_empty (map_get "error" log.execution_result)

-- The error of the first log of an execution that has one.
unfoldable pub first_error : List SagaStepExecutionLog → String
unfolding error_entry
first_error [] = "unknown error"
first_error (log ∷ history) =
    if log.is_compensation
    then first_error history
    else if log.execution_error == ""
    then (if error_entry log == "" then first_error history else error_entry log)
    else log.execution_error

unfoldable pub extract_compensation_reason : SagaStepInstance → String
unfolding first_error
extract_compensation_reason step =
    "step '" ++ (step.saga_step_template_id ++ ("' failed: " ++ first_error step.execution_history))
