-- ===== src/Scenario/Executors.antt =====
-- An executor that works on two sagas at once.
use trax.Prelude.{◌≡◌, refl, false, some, [], ◌∷◌, ◌==◌, String}
use trax.Names.{get_saga_step_idempotency_key}
use trax.Executor.{
  execution, compensation, SagaStepRequest, ExecutorConfig, request_key, is_sub_saga_executor,
  status, not_seen,
}
use trax.Executor.Guard.{start_job, start_execution, start_free}
use trax.Executor.System.{
  running, System, receive, admit, request, new_executor, Reach, begins, goes_on, receives, new_job,
}
use trax.Executor.Exclusion.{keys_at_work, Guarded}
use trax.Executor.Exclusion.Once.{Reach-Guarded, one_job_for_a_key, execution_with_compensation}

abbrev config : ExecutorConfig
config = record {
  cluster_id = "c";
  saga_template_id = "tpl";
  saga_step_template_id = "s";
  has_submitter = false;
  trax_ctrl_url = "";
}

abbrev asked : String → SagaStepRequest
asked saga = record {
  submitter = "m";
  saga_instance_id = saga;
  saga_step_instance_id = "1";
  zone_id = "z";
  coordinator_affinity = "a";
  input = [];
  metadata = [];
}

abbrev one : System
one = receive config (request execution (some (asked "g"))) (status not_seen) new_executor

abbrev two : System
two = receive config (request execution (some (asked "h"))) (status not_seen) one

two-Reach : Reach config two
two-Reach =
    goes_on
      (goes_on begins
        (receives (request execution (some (asked "g"))) (status not_seen) new_executor))
      (receives (request execution (some (asked "h"))) (status not_seen) one)

Reach-Guarded_example : Guarded execution two
Reach-Guarded_example = Reach-Guarded execution two-Reach

two_jobs :
    two.jobs
    ≡ new_job execution (asked "h") (request_key config (asked "h")) running
      ∷ new_job execution (asked "g") (request_key config (asked "g")) running
      ∷ []
unfolding receive admit start_job start_execution start_free request_key is_sub_saga_executor
    get_saga_step_idempotency_key
two_jobs = refl

one_job_for_a_key_example :
    (request_key config (asked "h") == request_key config (asked "g")) ≡ false
one_job_for_a_key_example =
    one_job_for_a_key execution []
      (new_job execution (asked "h") (request_key config (asked "h")) running) []
      (new_job execution (asked "g") (request_key config (asked "g")) running) [] two-Reach two_jobs
      refl refl

execution_with_compensation_example :
    (s : System) × Reach config s
    × (keys_at_work execution s.jobs ≡ request_key config (asked "g") ∷ [])
    × (keys_at_work compensation s.jobs ≡ request_key config (asked "g") ∷ [])
execution_with_compensation_example = execution_with_compensation config (asked "g")
