-- ===== src/Submitter/Submitting.antt =====
-- SubmitSaga and SubmitSubSaga of pkg/trax/submitter.go (Fulfilled: what a coordinator makes of the
-- message that they send). The new instance id is an argument, drawn at random in the code, and `published`
-- says whether PublishToNode succeeds.
pub mod Fulfilled
use trax.Prelude.{ℕ, String, Bool, Option, none, some, List, [], ◌∷◌, if◌then◌else◌}
use trax.Model.{StringMap}
use trax.Coordinator.Submission.{SagaSubmissionRequestPayload, saga_submission_request, TraxMessage}
use trax.Submitter.{SubmitterNodeNames, SagaSubmitter, names_of}

-- The arguments of SubmitSaga that a coordinator reads.
pub record SagaSubmission : Type 0 where
  pub participant_id : String
  pub trace_id : String
  pub zone_id : String
  pub origin : String
  pub origin_idempotency_key : String
  pub issuer : String
  pub metadata : StringMap
  pub saga_template_id : String
  pub saga_input : StringMap

-- The further arguments of SubmitSubSaga.
pub record ParentContext : Type 0 where
  pub parent_saga_instance_id : String
  pub parent_saga_step_instance_id : String
  pub root_saga_instance_id : String
  pub saga_depth : ℕ

abbrev pub no_parent : ParentContext
no_parent = record {
  parent_saga_instance_id = "";
  parent_saga_step_instance_id = "";
  root_saga_instance_id = "";
  saga_depth = 0;
}

-- What the caller gets: the id of the saga, or one of two errors.
pub data SubmitAnswer : Type 0 where
  submitted : String → SubmitAnswer
  cluster_not_found not_published : SubmitAnswer

unfoldable pub submission_payload :
    String → SagaSubmission → ParentContext → String → SagaSubmissionRequestPayload
submission_payload submitter a parent id = record {
  saga_submitter_id = submitter;
  saga_template_id = a.saga_template_id;
  saga_instance_id = id;
  zone_id = a.zone_id;
  saga_input = a.saga_input;
  parent_saga_instance_id = parent.parent_saga_instance_id;
  parent_saga_step_instance_id = parent.parent_saga_step_instance_id;
  root_saga_instance_id = parent.root_saga_instance_id;
  saga_depth = parent.saga_depth;
}

unfoldable pub submission_message : String → SagaSubmission → ParentContext → String → TraxMessage
unfolding submission_payload
submission_message submitter a parent id = record {
  cluster_id = a.participant_id;
  trace_id = a.trace_id;
  origin = a.origin;
  origin_idempotency_key = a.origin_idempotency_key;
  issuer = a.issuer;
  metadata = a.metadata;
  payloads = saga_submission_request (some (submission_payload submitter a parent id)) ∷ [];
}

-- The message with the node that it is published to, if it is, and the answer.
unfoldable pub submit_sub_saga :
    String
    → SagaSubmitter
    → SagaSubmission
    → ParentContext
    → String
    → Bool
    → Option (String × TraxMessage) × SubmitAnswer
unfolding submission_message names_of
submit_sub_saga submitter s a parent id published = elim (names_of a.participant_id s.node_names) [
  | none ↦ (none, cluster_not_found)
  | some names ↦
      if published
      then (some (names.outbox, submission_message submitter a parent id), submitted id)
      else (none, not_published)
]

unfoldable pub submit_saga :
    String
    → SagaSubmitter
    → SagaSubmission
    → String
    → Bool
    → Option (String × TraxMessage) × SubmitAnswer
unfolding submit_sub_saga
submit_saga submitter s a id published = submit_sub_saga submitter s a no_parent id published
