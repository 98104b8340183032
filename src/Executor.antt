-- ===== src/Executor.antt =====
-- The executor of a saga step, pkg/trax/executor.go: the consumer that Run registers, its guards
-- against running one idempotency key twice at a time, and the goroutines of detachExecution.
pub mod Configuration
pub mod Guard
pub mod System
pub mod Exclusion
use Prim.Native.String.{◌++◌}
use trax.Prelude.{String, Bool, not, ◌&&◌, [], ◌∷◌, ◌==◌}
use trax.State.{ExecutionResultStatus, success, failed, error}
use trax.Model.{StringMap}
use trax.Names.{
  get_saga_step_idempotency_key, get_step_topic_exchange_name, get_step_response_routing_key,
}

-- pkg/trax/idempotent_service.go
pub data SagaIdempotencyKeyStatus : Type 0 where
  unknown not_seen in_progress completed : SagaIdempotencyKeyStatus

-- The answer of GetIdempotentKeyExecutionStatus or GetIdempotentKeyCompensationStatus.
pub data StatusAnswer : Type 0 where
  status : SagaIdempotencyKeyStatus → StatusAnswer
  status_error : String → StatusAnswer

-- The answer of ExecuteSync or CompensateSync: an error, or a result whose own error may be set.
pub data ServiceAnswer : Type 0 where
  service_error : String → ServiceAnswer
  result_error : String → ServiceAnswer
  result : StringMap → ServiceAnswer

pub data Kind : Type 0 where
  execution compensation : Kind

-- The fields of the two payloads of requests that the executor reads, with the submitter of the
-- message.
pub record SagaStepRequest : Type 0 where
  pub submitter : String
  pub saga_instance_id : String
  pub saga_step_instance_id : String
  pub zone_id : String
  pub coordinator_affinity : String
  pub input : StringMap
  pub metadata : StringMap

pub record ExecutorConfig : Type 0 where
  pub cluster_id : String
  pub saga_template_id : String
  pub saga_step_template_id : String
  -- sagaSubmitter != nil
  pub has_submitter : Bool
  pub trax_ctrl_url : String

unfoldable pub is_sub_saga_executor : ExecutorConfig → Bool
is_sub_saga_executor c = c.has_submitter && not (c.trax_ctrl_url == "")

unfoldable pub request_key : ExecutorConfig → SagaStepRequest → String
request_key c r =
    get_saga_step_idempotency_key c.cluster_id r.coordinator_affinity c.saga_template_id
      c.saga_step_template_id r.saga_instance_id

abbrev pub with_error : String → StringMap
with_error text = ("error", text) ∷ []

unfoldable pub execution_outcome : String → ServiceAnswer → ExecutionResultStatus × StringMap
execution_outcome key (service_error text) = (
  error,
  with_error
      ("failed to execute saga step instance with idempotent key '" ++ (key ++ ("': " ++ text))),
)
execution_outcome key (result_error text) = (
  failed,
  with_error
      ("execution error in saga step instance with idempotent key '" ++ (key ++ ("': " ++ text))),
)
execution_outcome key (result m) = (success, m)

unfoldable pub compensation_outcome : String → ServiceAnswer → ExecutionResultStatus × StringMap
compensation_outcome key (service_error text) = (
  error,
  with_error
      ("failed to compensate saga step instance with idempotent key '" ++ (key ++ ("': " ++ text))),
)
compensation_outcome key (result_error text) = (
  failed,
  with_error (
      "compensation error in saga step instance with idempotent key '" ++ (key ++ ("': " ++ text))),
)
compensation_outcome key (result m) = (success, m)

unfoldable pub outcome : Kind → String → ServiceAnswer → ExecutionResultStatus × StringMap
unfolding execution_outcome compensation_outcome
outcome execution = execution_outcome
outcome compensation = compensation_outcome

-- The message with a result that publishExecutionResult and publishCompensationResult send.
pub record ExecutionReport : Type 0 where
  pub exchange : String
  pub routing_key : String
  pub saga_submitter_id : String
  pub saga_instance_id : String
  pub saga_step_instance_id : String
  pub zone_id : String
  pub status : ExecutionResultStatus
  pub execution_result : StringMap

unfoldable pub report :
    ExecutorConfig → SagaStepRequest → ExecutionResultStatus × StringMap → ExecutionReport
report c r (s, m) = record {
  exchange = get_step_topic_exchange_name c.cluster_id;
  routing_key =
      get_step_response_routing_key c.cluster_id r.coordinator_affinity c.saga_template_id
        c.saga_step_template_id;
  saga_submitter_id = r.submitter;
  saga_instance_id = r.saga_instance_id;
  saga_step_instance_id = r.saga_step_instance_id;
  zone_id = r.zone_id;
  status = s;
  execution_result = m;
}
