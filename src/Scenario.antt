-- ===== src/Scenario.antt =====
-- A saga of two steps, run by the handlers on concrete tables.
mod Held
mod Handlers
mod Witnesses
mod Creation
mod Courses
mod Submissions
mod Executors
mod Results
mod Reloads
mod Locks
mod Submitters
use trax.Prelude.{String, ℕ, Bool, false, none, some, List, [], ◌∷◌, map, ◌≡◌, refl}
use trax.State.{
  SagaState, SagaStepState, running, success, failed, execution_pending, execution_candidate,
}
use trax.Model.{SagaInstance, SagaStepInstance}
use trax.Store.{World, Environment, Tables, Exit, M, ◌>>=◌, ◌>>◌}
use trax.Coordinator.Result.{SagaStepExecutionResultPayload}

abbrev pub calm : Environment
calm = record { fails = λ n. false; lands = λ n. false; clock = λ n. n; random = λ n. "r" }

abbrev pub saga : SagaState → SagaInstance
saga state = record {
  instance_id = "g";
  cluster_id = "c";
  zone_id = "z";
  trace_id = "t";
  execution_id = "e";
  saga_submitter_id = "m";
  origin = "o";
  origin_idempotency_key = "k";
  labels = [];
  tags = [];
  metadata = [];
  state = state;
  saga_template_id = "tpl";
  input = ("in", "1") ∷ [];
  saga_instance_ids = [];
  parent_saga_instance_id = "";
  parent_saga_step_instance_id = "";
  root_saga_instance_id = "g";
  saga_depth = 0;
  compensation_reason = "";
  annex_iids = [];
}

abbrev pub step : String → String → String → SagaStepState → SagaStepInstance
step id previous next state = record {
  instance_id = id;
  cluster_id = "c";
  zone_id = "z";
  saga_instance_id = "g";
  trace_id = "t";
  execution_id = "";
  labels = [];
  tags = [];
  metadata = [];
  affinity = "a";
  state = state;
  result = [];
  compensation_result = [];
  saga_template_id = "tpl";
  saga_step_template_id = "s";
  previous_saga_step_instance_id = previous;
  next_saga_step_instance_id = next;
  execution_history = [];
}

abbrev pub first : SagaStepState → SagaStepInstance
first = step "1" "" "2"

abbrev pub second : SagaStepState → SagaStepInstance
second = step "2" "1" ""

-- The saga and its two steps, the first of them held. The rows are not in the order of the chain.
abbrev pub world : SagaState → SagaStepInstance → SagaStepInstance → World
world state a b = record {
  env = calm;
  calls = 1;
  affinity_group = "a";
  execution_timeout_ms = 900000;
  tables = record { sagas = saga state ∷ []; steps = b ∷ a ∷ [] };
  saved = none;
  published = [];
  spawned = [];
  saga = saga state;
  step = a;
}

abbrev pub answer : String → SagaStepExecutionResultPayload
answer id = record {
  saga_instance_id = "g";
  saga_step_instance_id = id;
  status = success;
  execution_result = [];
}

abbrev pub refusal : String → SagaStepExecutionResultPayload
refusal id = record {
  saga_instance_id = "g";
  saga_step_instance_id = id;
  status = failed;
  execution_result = [];
}

abbrev pub start : World
start = world running (first execution_candidate) (second execution_pending)
