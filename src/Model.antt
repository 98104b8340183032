-- ===== src/Model.antt =====
-- The instances of pkg/trax/types.go, as their rows are read from and written to the database.
-- Left out are the creation and update times, which the database stamps and no operation of the
-- coordinator reads. A Go map from string to string is a list of entries with distinct keys.
pub mod Maps
use trax.Prelude.{ℕ, String, Bool, Option, none, some, List, [], ◌∷◌, ◌==◌, if◌then◌else◌}
use trax.State.{SagaState, SagaStepState}

abbrev pub StringMap : Type 0
StringMap = List (String × String)

pub record SagaInstance : Type 0 where
  pub instance_id : String
  pub cluster_id : String
  pub zone_id : String
  pub trace_id : String
  pub execution_id : String
  pub saga_submitter_id : String
  pub origin : String
  pub origin_idempotency_key : String
  pub labels : StringMap
  pub tags : List String
  pub metadata : StringMap
  pub state : SagaState
  pub saga_template_id : String
  pub input : StringMap
  pub saga_instance_ids : List String
  pub parent_saga_instance_id : String
  pub parent_saga_step_instance_id : String
  pub root_saga_instance_id : String
  pub saga_depth : ℕ
  pub compensation_reason : String
  pub annex_iids : List String

-- Times are in milliseconds, and 0 stands for "not yet".
pub record SagaStepExecutionLog : Type 0 where
  pub next_execution_ts : ℕ
  pub execution_request_sent_ts : ℕ
  pub execution_timeout_ts : ℕ
  pub execution_result_received_ts : ℕ
  pub log_conclusion_ts : ℕ
  pub execution_result : StringMap
  pub execution_error : String
  pub is_compensation : Bool
  pub metadata : StringMap

pub record SagaStepInstance : Type 0 where
  pub instance_id : String
  pub cluster_id : String
  pub zone_id : String
  pub saga_instance_id : String
  pub trace_id : String
  pub execution_id : String
  pub labels : StringMap
  pub tags : List String
  pub metadata : StringMap
  pub affinity : String
  pub state : SagaStepState
  pub result : StringMap
  pub compensation_result : StringMap
  pub saga_template_id : String
  pub saga_step_template_id : String
  pub previous_saga_step_instance_id : String
  pub next_saga_step_instance_id : String
  pub execution_history : List SagaStepExecutionLog

pub record SagaTemplate : Type 0 where
  pub template_id : String
  pub display_name : String
  pub description : String
  pub labels : StringMap
  pub tags : List String
  pub metadata : StringMap
  pub saga_step_template_ids : List String

pub record SagaStepTemplate : Type 0 where
  pub template_id : String
  pub saga_template_id : String
  pub display_name : String
  pub description : String
  pub labels : StringMap
  pub tags : List String
  pub metadata : StringMap

-- `m[key]`
unfoldable pub map_get : String → StringMap → Option String
map_get key [] = none
map_get key ((k, v) ∷ m) = if k == key then some v else map_get key m

-- `m[key] = value`
unfoldable pub map_put : String → String → StringMap → StringMap
map_put key value [] = (key, value) ∷ []
map_put key value ((k, v) ∷ m) = if k == key then (k, value) ∷ m else (k, v) ∷ map_put key value m

-- `for k, v := range other { m[k] = v }`
unfoldable pub map_put_all : StringMap → StringMap → StringMap
unfolding map_put
map_put_all m [] = m
map_put_all m ((k, v) ∷ other) = map_put_all (map_put k v m) other
