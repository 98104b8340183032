-- ===== src/Submitter/Submitting/Fulfilled.antt =====
-- What a coordinator makes of the message that SubmitSubSaga sends, in terms of its arguments.
use trax.Prelude.{
  String, Bool, true, false, ◌≡◌, refl, sym, ap, subst, ◌⊎◌, inl, inr, Option, none, some, List,
  ◌∷◌, [], ◌++◌, ◌==◌, arith, if◌then◌else◌,
}
use trax.State.{running}
use trax.Model.{SagaInstance, SagaTemplate, SagaStepTemplate}
use trax.Store.{Tables, World}
use trax.Store.Rows.{saga_row}
use trax.Store.Outcome.{Outcome, map-Outcome}
use trax.Store.Saving.{Templates}
use trax.Coordinator.Soundness.Shapes.{Sound}
use trax.Coordinator.Soundness.Held.{Made, Stopped}
use trax.Coordinator.Submission.{
  SagaSubmissionRequestPayload, TraxMessage, SubmissionReply, submission_success,
  submission_failure, new_saga, handle_submission,
}
use trax.Coordinator.Submission.Stored.{Unseen, saga_made, find_new}
use trax.Coordinator.Submission.Soundness.{Answered, Submitted, handle_submission-Made}
use trax.Submitter.{SubmitterNodeNames, SagaSubmitter, names_of}
use trax.Submitter.Submitting.{
  SagaSubmission, ParentContext, SubmitAnswer, submitted, submission_payload, submission_message,
  cluster_not_found, not_published, submit_sub_saga,
}

module _ (a : SagaSubmission) (parent : ParentContext) (given : String) where
  -- A saga with what the caller asked for.
  pub record AsSubmitted (r : SagaInstance) : Type 0 where
    pub named : r.instance_id ≡ given
    pub runs : r.state ≡ running
    pub input : r.input ≡ a.saga_input
    pub template_id : r.saga_template_id ≡ a.saga_template_id
    pub zone : r.zone_id ≡ a.zone_id
    pub cluster : r.cluster_id ≡ a.participant_id
    pub trace : r.trace_id ≡ a.trace_id
    pub issued_by : r.saga_submitter_id ≡ a.issuer
    pub origin : r.origin ≡ a.origin
    pub key : r.origin_idempotency_key ≡ a.origin_idempotency_key
    pub metadata : r.metadata ≡ a.metadata
    pub parent_saga : r.parent_saga_instance_id ≡ parent.parent_saga_instance_id
    pub parent_step : r.parent_saga_step_instance_id ≡ parent.parent_saga_step_instance_id
    pub root :
        r.root_saga_instance_id
        ≡ (if parent.root_saga_instance_id == "" then given else parent.root_saga_instance_id)
    pub depth : r.saga_depth ≡ parent.saga_depth

  -- The rows of the sagas are those before and one as submitted, found by its id and in a legal
  -- picture.
  abbrev pub Fulfilled : World → Tables → Type 0
  Fulfilled w t =
      (r : SagaInstance) × AsSubmitted r
      × (saga_row given t ≡ some r)
      × (t.sagas ≡ w.tables.sagas ++ r ∷ [])
      × Sound given t

  -- A coordinator has answered: with a success, or with a failure where some call fails.
  abbrev pub AnsweredFor : World → Option SubmissionReply → World → Type 0
  AnsweredFor w reply v =
      ((reply ≡ some submission_success) × Made (Fulfilled w) v)
      ⊎ ((reply ≡ some submission_failure) × Stopped w.tables (Fulfilled w) v)

abbrev id_or : String → SubmitAnswer → String
id_or other (submitted id) = id
id_or other cluster_not_found = other
id_or other not_published = other

module _ (submitter : String) (s : SagaSubmitter) (a : SagaSubmission) (parent : ParentContext)
    (id : String) where
  abbrev pub message' : TraxMessage
  message' = submission_message submitter a parent id

  abbrev pub payload' : SagaSubmissionRequestPayload
  payload' = submission_payload submitter a parent id

  abbrev sent : Option (String × TraxMessage) → TraxMessage
  sent none = message'
  sent (some (node, msg)) = msg

  -- What SubmitSubSaga published, if it published.
  published_lem :
      (published : Bool) (node : String) (msg : TraxMessage) (given : String)
      → submit_sub_saga submitter s a parent id published ≡ (some (node, msg), submitted given)
      → (message' ≡ msg) × (id ≡ given)
  unfolding submit_sub_saga
  published_lem published node msg given h =
      by_names (names_of a.participant_id s.node_names) published h
    where
      by_names :
          (o : Option SubmitterNodeNames) (published : Bool)
          → ◌≡◌ {A = Option (String × TraxMessage) × SubmitAnswer}
              (elim o [
                | none ↦ (none, cluster_not_found)
                | some names ↦
                    if published
                    then (some (names.outbox, message'), submitted id)
                    else (none, not_published)
              ])
              (some (node, msg), submitted given)
          → (message' ≡ msg) × (id ≡ given)
      by_names none published h = ground (arith, ap (λ x. x.0) h)
      by_names (some names) true h = (ap (λ x. sent x.0) h, ap (λ x. id_or id x.1) h)
      by_names (some names) false h = ground (arith, ap (λ x. x.0) h)

  module _ (templates : Templates) (template : SagaTemplate) (first : String × SagaStepTemplate)
      (l : List (String × SagaStepTemplate)) (w : World) where
    fulfilled :
        Unseen templates message' payload' template (first ∷ l) w
        → (t : Tables) → Submitted templates message' payload' template first l w t
        → Fulfilled a parent id w t
    unfolding submission_message submission_payload new_saga saga_row
    fulfilled u t h = subst (Fulfilled a parent id w) (sym h.0) (
      saga_made templates message' payload' template (first ∷ l) w,
      record {
        named = refl;
        runs = refl;
        input = refl;
        template_id = refl;
        zone = refl;
        cluster = refl;
        trace = refl;
        issued_by = refl;
        origin = refl;
        key = refl;
        metadata = refl;
        parent_saga = refl;
        parent_step = refl;
        root = refl;
        depth = refl;
      },
      find_new (saga_made templates message' payload' template (first ∷ l) w) w.tables.sagas
          u.saga_free,
      refl,
      subst (Sound id) h.0 h.1.0,
    )

    Fulfilled-stop :
        (v : World)
        → Stopped w.tables (Submitted templates message' payload' template first l w) v
        → Unseen templates message' payload' template (first ∷ l) w
        → Stopped w.tables (Fulfilled a parent id w) v
    Fulfilled-stop v (closed, failed, inl same) u = (closed, failed, inl same)
    Fulfilled-stop v (closed, failed, inr h) u = (closed, failed, inr (fulfilled u v.tables h))

    Fulfilled-answer :
        (reply : Option SubmissionReply) (v : World)
        → Answered templates message' payload' template first l w reply v
        → Unseen templates message' payload' template (first ∷ l) w
        → AnsweredFor a parent id w reply v
    Fulfilled-answer reply v (inl h) u = inl (h.0, (h.1.0, fulfilled u v.tables h.1.1))
    Fulfilled-answer reply v (inr h) u = inr (h.0, Fulfilled-stop v h.1 u)

    -- SubmitSubSaga (or SubmitSaga, which has no parent) publishes a message and returns an id. A
    -- coordinator that is ready handles exactly this message, with no transaction open, where the
    -- templates exist with at least one step and nothing stored has the new ids or keys. It answers
    -- with a success and adds exactly one saga: it is found by the returned id, is RUNNING, has the
    -- caller's input, template, zone, cluster, trace id, issuer, origin, key, metadata, parents,
    -- depth and root (itself if none is given), and stands in a legal picture with its steps. It
    -- stops, or answers with a failure, only in an environment that makes some call fail, with all
    -- of this done or none of it, and no transaction is open at the end. It never panics.
    pub submit_sub_saga-Fulfilled :
        (published : Bool) (node : String) (msg : TraxMessage) (given : String)
        → submit_sub_saga submitter s a parent id published ≡ (some (node, msg), submitted given)
        → w.saved ≡ none
        → Unseen templates message' payload' template (first ∷ l) w
        → Outcome
            (AnsweredFor a parent given w)
            (Stopped w.tables (Fulfilled a parent given w))
            (handle_submission templates true msg msg.payloads w)
    unfolding submission_message
    submit_sub_saga-Fulfilled published node msg given sent_as closed u =
        let (same_msg, same_id) = published_lem published node msg given sent_as in
        subst
          (λ m.
            Outcome (AnsweredFor a parent given w) (Stopped w.tables (Fulfilled a parent given w))
              (handle_submission templates true m m.payloads w))
          same_msg
          (subst
            (λ i.
              Outcome (AnsweredFor a parent i w) (Stopped w.tables (Fulfilled a parent i w))
                (handle_submission templates true message' message'.payloads w))
            same_id
            (map-Outcome (AnsweredFor a parent id w) (Stopped w.tables (Fulfilled a parent id w))
              (Answered templates message' payload' template first l w)
              (Stopped w.tables (Submitted templates message' payload' template first l w))
              (handle_submission templates true message' message'.payloads w)
              (λ reply v h. Fulfilled-answer reply v h u) (λ v h. Fulfilled-stop v h u)
              (handle_submission-Made templates message' payload' template first l w closed u)))
