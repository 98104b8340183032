-- ===== src/Scenario/Submissions.antt =====
-- A sub-saga that is submitted and created.
use trax.Prelude.{◌≡◌, refl, true, some, [], ◌∷◌}
use trax.Names.{
  get_saga_idempotency_key, saga_idempotency_key, get_saga_step_idempotency_key,
  saga_step_idempotency_key,
}
use trax.Store.Outcome.{Outcome}
use trax.Store.Saving.{saga_template_row, saga_step_template_row}
use trax.Coordinator.Soundness.Held.{Stopped}
use trax.Coordinator.Submission.{new_saga, new_step, link_steps, handle_submission}
use trax.Coordinator.Submission.Stored.{Unseen}
use trax.Submitter.{SubmitterNodeNames, SagaSubmitter, new_submitter, names_of}
use trax.Submitter.Submitting.{
  SagaSubmission, ParentContext, submission_message, submission_payload, submit_sub_saga,
}
use trax.Submitter.Submitting.Fulfilled.{AnsweredFor, Fulfilled, submit_sub_saga-Fulfilled}
use trax.Scenario.Creation.{template, step_template, templates, before}

abbrev nodes : SubmitterNodeNames
nodes = record { inbox = "in"; outbox = "out" }

abbrev ready_submitter : SagaSubmitter
ready_submitter = record new_submitter { ready = true; node_names = ("c", nodes) ∷ [] }

abbrev request : SagaSubmission
request = record {
  participant_id = "c";
  trace_id = "t";
  zone_id = "z";
  origin = "o";
  origin_idempotency_key = "k";
  issuer = "m";
  metadata = [];
  saga_template_id = "tpl";
  saga_input = [];
}

abbrev parent : ParentContext
parent = record {
  parent_saga_instance_id = "g";
  parent_saga_step_instance_id = "1";
  root_saga_instance_id = "g";
  saga_depth = 1;
}

known : names_of "c" ready_submitter.node_names ≡ some nodes
unfolding names_of
known = refl

Unseen_sub_saga :
    Unseen
      (templates ("s" ∷ "u" ∷ []))
      (submission_message "m" request parent "h")
      (submission_payload "m" request parent "h")
      (template ("s" ∷ "u" ∷ []))
      (("s", step_template "s") ∷ ("u", step_template "u") ∷ [])
      before
unfolding saga_template_row saga_step_template_row new_saga new_step link_steps saga_idempotency_key
    saga_step_idempotency_key get_saga_idempotency_key get_saga_step_idempotency_key
    submission_message
Unseen_sub_saga = record {
  template_there = refl;
  ids_there = refl;
  step_templates_there = (refl, (refl, tt));
  saga_free = (refl, tt);
  no_steps = (refl, (refl, tt));
  steps_fresh = ((refl, (refl, tt)), ((refl, (refl, (refl, tt))), tt));
  named = (refl, (refl, tt));
}

submit_sub_saga-Fulfilled_example :
    Outcome
      (AnsweredFor request parent "h" before)
      (Stopped before.tables (Fulfilled request parent "h" before))
      (handle_submission
        (templates ("s" ∷ "u" ∷ []))
        true
        (submission_message "m" request parent "h")
        (submission_message "m" request parent "h").payloads
        before)
unfolding submit_sub_saga names_of
submit_sub_saga-Fulfilled_example =
    submit_sub_saga-Fulfilled "m" ready_submitter request parent "h" (templates ("s" ∷ "u" ∷ []))
      (template ("s" ∷ "u" ∷ [])) ("s", step_template "s") (("u", step_template "u") ∷ []) before
      true "out" (submission_message "m" request parent "h") "h" refl refl Unseen_sub_saga
