-- ===== src/Scenario/Creation.antt =====
-- The submission of a second saga of two steps.
use trax.Prelude.{
  ◌≡◌, refl, true, false, some, List, [], ◌∷◌, String, eqb, ltb, ◌&&◌, if◌then◌else◌,
}
use trax.State.{running, execution_candidate, execution_pending}
use trax.Model.{SagaTemplate, SagaStepTemplate}
use trax.Names.{
  get_saga_idempotency_key, saga_idempotency_key, get_saga_step_idempotency_key,
  saga_step_idempotency_key,
}
use trax.Store.{World}
use trax.Store.Outcome.{Outcome}
use trax.Store.Saving.{Templates, saga_template_row, saga_step_template_row, saga_key_exists}
use trax.Coordinator.Health.{is_ready}
use trax.Coordinator.Health.Breaker.{
  operation_failed, health_checked, after_events, new_health, is_ready-after_events,
}
use trax.Coordinator.Soundness.Held.{Made, Stopped}
use trax.Coordinator.Submission.{
  TraxMessage, SagaSubmissionRequestPayload, saga_submission_request, new_saga, new_step,
  link_steps, submission_logic, handle_submission,
}
use trax.Coordinator.Submission.Stored.{Unseen}
use trax.Coordinator.Submission.Soundness.{Answered, Submitted, handle_submission-Made}
use trax.Coordinator.Submission.Stepless.{Stepless, submission_logic-Stepless}
use trax.Coordinator.Submission.Repeated.{Kept, repeated_submission_changes_nothing}
use trax.Scenario.{calm, world, first, second}

abbrev message : TraxMessage
message = record {
  cluster_id = "c";
  trace_id = "t";
  origin = "o";
  origin_idempotency_key = "k";
  issuer = "m";
  metadata = [];
  payloads = [];
}

abbrev submission : String → SagaSubmissionRequestPayload
submission id = record {
  saga_submitter_id = "m";
  saga_template_id = "tpl";
  saga_instance_id = id;
  zone_id = "z";
  saga_input = [];
  parent_saga_instance_id = "";
  parent_saga_step_instance_id = "";
  root_saga_instance_id = "";
  saga_depth = 0;
}

abbrev pub template : List String → SagaTemplate
template ids = record {
  template_id = "tpl";
  display_name = "";
  description = "";
  labels = [];
  tags = [];
  metadata = [];
  saga_step_template_ids = ids;
}

abbrev pub step_template : String → SagaStepTemplate
step_template id = record {
  template_id = id;
  saga_template_id = "tpl";
  display_name = "";
  description = "";
  labels = [];
  tags = [];
  metadata = [];
}

abbrev pub templates : List String → Templates
templates ids = record {
  saga_templates = template ids ∷ [];
  saga_step_templates = step_template "s" ∷ step_template "u" ∷ [];
}

-- Two saga steps are stored, and the fourth and the seventh call draw new ids.
abbrev pub before : World
before = record (world running (first execution_candidate) (second execution_pending)) {
  calls = 0;
  env = record calm { random = λ n. if eqb n 4 then "3" else "4" };
}

Unseen_example :
    Unseen
      (templates ("s" ∷ "u" ∷ []))
      message
      (submission "h")
      (template ("s" ∷ "u" ∷ []))
      (("s", step_template "s") ∷ ("u", step_template "u") ∷ [])
      before
unfolding saga_template_row saga_step_template_row new_saga new_step link_steps saga_idempotency_key
    saga_step_idempotency_key get_saga_idempotency_key get_saga_step_idempotency_key
Unseen_example = record {
  template_there = refl;
  ids_there = refl;
  step_templates_there = (refl, (refl, tt));
  saga_free = (refl, tt);
  no_steps = (refl, (refl, tt));
  steps_fresh = ((refl, (refl, tt)), ((refl, (refl, (refl, tt))), tt));
  named = (refl, (refl, tt));
}

handle_submission-Made_example :
    Outcome
      (Answered
        (templates ("s" ∷ "u" ∷ []))
        message
        (submission "h")
        (template ("s" ∷ "u" ∷ []))
        ("s", step_template "s")
        (("u", step_template "u") ∷ [])
        before)
      (Stopped before.tables (
        Submitted
          (templates ("s" ∷ "u" ∷ []))
          message
          (submission "h")
          (template ("s" ∷ "u" ∷ []))
          ("s", step_template "s")
          (("u", step_template "u") ∷ [])
          before))
      (handle_submission
        (templates ("s" ∷ "u" ∷ []))
        true
        message
        (saga_submission_request (some (submission "h")) ∷ [])
        before)
handle_submission-Made_example =
    handle_submission-Made (templates ("s" ∷ "u" ∷ [])) message (submission "h")
      (template ("s" ∷ "u" ∷ [])) ("s", step_template "s") (("u", step_template "u") ∷ []) before
      refl Unseen_example

Unseen_stepless : Unseen (templates []) message (submission "h") (template []) [] before
unfolding saga_template_row new_saga link_steps saga_idempotency_key get_saga_idempotency_key
Unseen_stepless = record {
  template_there = refl;
  ids_there = refl;
  step_templates_there = tt;
  saga_free = (refl, tt);
  no_steps = (refl, (refl, tt));
  steps_fresh = tt;
  named = tt;
}

submission_logic-Stepless_example :
    Outcome
      (λ _ v. Made (Stepless "h") v)
      (Stopped before.tables (Stepless "h"))
      (submission_logic (templates []) true message (some (submission "h")) before)
submission_logic-Stepless_example =
    submission_logic-Stepless (templates []) message (submission "h") (template []) before refl
      Unseen_stepless

seen : saga_key_exists (get_saga_idempotency_key "c" "z" "tpl" "g") before.tables ≡ true
unfolding saga_key_exists saga_idempotency_key get_saga_idempotency_key
seen = refl

repeated_submission_changes_nothing_example :
    Outcome
      (λ _ v. Kept before.tables v)
      (Kept before.tables)
      (handle_submission
        (templates ("s" ∷ []))
        true
        message
        (saga_submission_request (some (submission "g")) ∷ [])
        before)
repeated_submission_changes_nothing_example =
    repeated_submission_changes_nothing (templates ("s" ∷ [])) true message (submission "g") before
      refl seen

-- Two errors, a health check that succeeds, and three more errors, the last a failed check.
is_ready-after_events_example :
    is_ready true true (
      after_events 5000
        (operation_failed 1
          ∷ operation_failed 2
          ∷ health_checked false 5000 5000
          ∷ operation_failed 5001
          ∷ operation_failed 5002
          ∷ health_checked true 10000 10001
          ∷ [])
        new_health)
    ≡ (true
        && ltb
            (after_events 5000
              (operation_failed 1
                ∷ operation_failed 2
                ∷ health_checked false 5000 5000
                ∷ operation_failed 5001
                ∷ operation_failed 5002
                ∷ health_checked true 10000 10001
                ∷ [])
              new_health).consecutive_db_errors
            3
        && true)
is_ready-after_events_example =
    is_ready-after_events 5000
      (operation_failed 1
        ∷ operation_failed 2
        ∷ health_checked false 5000 5000
        ∷ operation_failed 5001
        ∷ operation_failed 5002
        ∷ health_checked true 10000 10001
        ∷ [])
      true true
