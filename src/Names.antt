-- ===== src/Names.antt =====
-- pkg/trax/common.go: the keys of instances and the names of exchanges, routing keys and queues.
use Prim.Native.String.{◌++◌}
use trax.Prelude.{String, List, [], ◌∷◌}
use trax.Model.{SagaInstance, SagaStepInstance}

-- fmt.Sprintf with `.` between the parts.
abbrev pub dotted : String → List String → String
dotted s [] = s
dotted s (t ∷ ts) = dotted (s ++ ("." ++ t)) ts

unfoldable pub get_saga_idempotency_key : String → String → String → String → String
get_saga_idempotency_key cluster zone template instance_id =
    "sidk:" ++ dotted cluster (zone ∷ template ∷ instance_id ∷ [])

unfoldable pub get_saga_step_idempotency_key : String → String → String → String → String → String
get_saga_step_idempotency_key cluster zone template step_template instance_id =
    "ssidk:" ++ dotted cluster (zone ∷ template ∷ step_template ∷ instance_id ∷ [])

-- SagaInstance.SagaIdempotencyKey of pkg/trax/types.go
unfoldable pub saga_idempotency_key : SagaInstance → String
unfolding get_saga_idempotency_key
saga_idempotency_key s =
    get_saga_idempotency_key s.cluster_id s.zone_id s.saga_template_id s.instance_id

-- SagaStepInstance.SagaIdempotencyKey of pkg/trax/types.go
unfoldable pub saga_step_idempotency_key : SagaStepInstance → String
unfolding get_saga_step_idempotency_key
saga_step_idempotency_key s =
    get_saga_step_idempotency_key s.cluster_id s.zone_id s.saga_template_id s.saga_step_template_id
      s.instance_id

unfoldable pub get_step_topic_exchange_name : String → String
get_step_topic_exchange_name cluster = "x_" ++ (cluster ++ "_trax_saga_steps")

unfoldable pub get_step_request_routing_key : String → String → String → String → String
get_step_request_routing_key cluster affinity template step_template =
    dotted cluster (affinity ∷ template ∷ step_template ∷ "request" ∷ [])

unfoldable pub get_step_response_routing_key : String → String → String → String → String
get_step_response_routing_key cluster affinity template step_template =
    dotted cluster (affinity ∷ template ∷ step_template ∷ "response" ∷ [])

unfoldable pub get_executor_inbox_binding_key : String → String → String → String
get_executor_inbox_binding_key cluster template step_template =
    dotted cluster ("*" ∷ template ∷ step_template ∷ "request" ∷ [])

unfoldable pub get_coordinator_results_binding_key : String → String → String
get_coordinator_results_binding_key cluster affinity =
    dotted cluster (affinity ∷ "*" ∷ "*" ∷ "response" ∷ [])

unfoldable pub get_executor_inbox_queue_name : String → String → String → String
get_executor_inbox_queue_name cluster template step_template =
    "q_" ++ (cluster ++ ("_trax_executor_" ++ (template ++ ("_" ++ (step_template ++ "_inbox")))))
