-- ===== src/Coordinator/Submission.antt =====
-- The handler of saga submissions that followSagaSubmitterIfNeeded of pkg/trax/coordinator.go
-- registers on the outbox of a submitter: it creates a saga and its steps from their templates.
pub mod Created
pub mod Fresh
pub mod Stored
pub mod Soundness
pub mod Stepless
pub mod Repeated
use trax.Prelude.{
  ℕ, String, Bool, true, false, Option, none, some, List, [], ◌∷◌, map, ◌==◌, if◌then◌else◌,
}
use trax.State.{running, execution_pending, execution_candidate}
use trax.Model.{StringMap, SagaInstance, SagaStepInstance, SagaTemplate, SagaStepTemplate}
use trax.Store.{
  World, Exit, stop, ok, panicked, M, pure, exit, gets, attempt, secure_random_string, found, try,
  ◌>>=◌, ◌>>◌,
}
use trax.Store.Saving.{
  Templates, get_saga_template, get_saga_step_template, save_saga_instance_idempotently,
  save_saga_step_instance_idempotently,
}
use trax.Coordinator.Transit.{transaction}

pub record SagaSubmissionRequestPayload : Type 0 where
  pub saga_submitter_id : String
  pub saga_template_id : String
  pub saga_instance_id : String
  pub zone_id : String
  pub saga_input : StringMap
  pub parent_saga_instance_id : String
  pub parent_saga_step_instance_id : String
  pub root_saga_instance_id : String
  pub saga_depth : ℕ

-- A payload of a message: a submission, if its data can be decoded, or of another type.
pub data Payload : Type 0 where
  saga_submission_request : Option SagaSubmissionRequestPayload → Payload
  unknown : Payload

pub record TraxMessage : Type 0 where
  pub cluster_id : String
  pub trace_id : String
  pub origin : String
  pub origin_idempotency_key : String
  pub issuer : String
  pub metadata : StringMap
  pub payloads : List Payload

-- What is published to the inbox of the submitter.
pub data SubmissionReply : Type 0 where
  submission_success submission_failure : SubmissionReply

-- The step of a template, before it is linked to its neighbours.
unfoldable pub new_step :
    TraxMessage
    → SagaSubmissionRequestPayload
    → SagaStepTemplate
    → String
    → Bool
    → String
    → String
    → String
    → SagaStepInstance
new_step msg payload template template_id first instance_id execution_id affinity = record {
  instance_id = instance_id;
  cluster_id = msg.cluster_id;
  zone_id = payload.zone_id;
  saga_instance_id = payload.saga_instance_id;
  trace_id = msg.trace_id;
  execution_id = execution_id;
  labels = template.labels;
  tags = template.tags;
  metadata = template.metadata;
  affinity = affinity;
  state = if first then execution_candidate else execution_pending;
  result = [];
  compensation_result = [];
  saga_template_id = payload.saga_template_id;
  saga_step_template_id = template_id;
  previous_saga_step_instance_id = "";
  next_saga_step_instance_id = "";
  execution_history = [];
}

abbrev root_of : SagaSubmissionRequestPayload → String
root_of payload =
    if payload.root_saga_instance_id == ""
    then payload.saga_instance_id
    else payload.root_saga_instance_id

unfoldable pub new_saga :
    TraxMessage
    → SagaSubmissionRequestPayload
    → SagaTemplate
    → String
    → List SagaStepInstance
    → SagaInstance
new_saga msg payload template execution_id steps = record {
  instance_id = payload.saga_instance_id;
  cluster_id = msg.cluster_id;
  zone_id = payload.zone_id;
  trace_id = msg.trace_id;
  execution_id = execution_id;
  saga_submitter_id = msg.issuer;
  origin = msg.origin;
  origin_idempotency_key = msg.origin_idempotency_key;
  labels = [];
  tags = template.tags;
  metadata = msg.metadata;
  state = running;
  saga_template_id = payload.saga_template_id;
  input = payload.saga_input;
  saga_instance_ids = map (λ s. s.instance_id) steps;
  parent_saga_instance_id = payload.parent_saga_instance_id;
  parent_saga_step_instance_id = payload.parent_saga_step_instance_id;
  root_saga_instance_id = root_of payload;
  saga_depth = payload.saga_depth;
  compensation_reason = "";
  annex_iids = [];
}

-- The id of the first step of a list, or "".
abbrev pub head_id : List SagaStepInstance → String
head_id [] = ""
head_id (s ∷ steps) = s.instance_id

-- The links of the steps to their neighbours, after a step with the id `previous`.
unfoldable pub link_steps : String → List SagaStepInstance → List SagaStepInstance
link_steps previous [] = []
link_steps previous (s ∷ steps) =
    record s {
      previous_saga_step_instance_id = previous;
      next_saga_step_instance_id = head_id steps;
    }
    ∷ link_steps s.instance_id steps

unfoldable pub save_steps : List SagaStepInstance → M (Unit {0})
unfolding save_saga_step_instance_idempotently
save_steps [] = pure tt
save_steps (s ∷ steps) = do saved ← save_saga_step_instance_idempotently s; save_steps steps

module _ (templates : Templates) (msg : TraxMessage) (payload : SagaSubmissionRequestPayload) where
  -- The loop over the step templates; `first` says that the index is 0.
  unfoldable pub create_steps : Bool → List String → M (List SagaStepInstance)
  unfolding get_saga_step_template new_step
  create_steps first [] = pure []
  create_steps first (id ∷ ids) = do
    row ← get_saga_step_template templates id
    template ← found row
    instance_id ← secure_random_string
    execution_id ← secure_random_string
    affinity ← gets (λ w. w.affinity_group)
    steps ← create_steps false ids
    pure (new_step msg payload template id first instance_id execution_id affinity ∷ steps)

  -- The body of the transaction, which every error rolls back.
  unfoldable pub create_saga : M (Unit {0})
  unfolding create_steps save_steps get_saga_template save_saga_instance_idempotently link_steps
      new_saga
  create_saga = do
    row ← get_saga_template templates payload.saga_template_id
    template ← found row
    execution_id ← secure_random_string
    steps ← create_steps true template.saga_step_template_ids
    saved ← save_saga_instance_idempotently (new_saga msg payload template execution_id steps)
    if saved then save_steps (link_steps "" steps) else pure tt

-- `logic`
unfoldable pub submission_logic :
    Templates → Bool → TraxMessage → Option SagaSubmissionRequestPayload → M (Unit {0})
unfolding create_saga transaction
submission_logic templates false msg payload = exit stop
submission_logic templates true msg none = exit stop
submission_logic templates true msg (some payload) = transaction (create_saga templates msg payload)

unfoldable pub reply_of : Option (Unit {0}) → SubmissionReply
reply_of none = submission_failure
reply_of (some _) = submission_success

-- The handler. `none` is a message that is dropped; a reply that cannot be published is an error,
-- after which the message is delivered again.
unfoldable pub handle_submission :
    Templates → Bool → TraxMessage → List Payload → M (Option SubmissionReply)
unfolding submission_logic reply_of
handle_submission templates ready msg [] = exit panicked
handle_submission templates ready msg (unknown ∷ payloads) = pure none
handle_submission templates ready msg (saga_submission_request payload ∷ payloads) = do
  done ← try (submission_logic templates ready msg payload)
  attempt
  pure (some (reply_of done))
