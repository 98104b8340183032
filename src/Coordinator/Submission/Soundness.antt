-- ===== src/Coordinator/Submission/Soundness.antt =====
-- A submission creates a saga that stands in a forward picture, at its first step.
use mathlib.Core.Option
use trax.Prelude.{
  ℕ, suc, String, ◌≡◌, refl, sym, ap, subst, ◌⊎◌, inl, inr, Bool, Bool-cases, Option, true, false,
  none, some, List, [], ◌∷◌, All, eq_refl,
}
use trax.State.{running}
use trax.Model.{SagaInstance, SagaStepInstance, SagaTemplate, SagaStepTemplate}
use trax.Store.{
  Tables, World, Exit, ok, stop, invalidate, panicked, hangs, pure, attempt, try, ◌>>=◌, ◌>>◌,
}
use trax.Store.Rows.{saga_row}
use trax.Store.Outcome.{Outcome}
use trax.Store.Saving.{Templates}
use trax.Coordinator.Rules.Chain.{Chain}
use trax.Coordinator.Rules.Transitions.{saga_state}
use trax.Coordinator.Rules.Transaction.{transaction-Outcome}
use trax.Coordinator.Soundness.Shapes.{Waiting, Forward, forward}
use trax.Coordinator.Soundness.Held.{Becomes, Made, Stopped}
use trax.Coordinator.Submission.{
  TraxMessage, SagaSubmissionRequestPayload, new_step, new_saga, head_id, link_steps, create_saga,
  submission_logic, SubmissionReply, submission_success, submission_failure, reply_of,
  handle_submission, saga_submission_request,
}
use trax.Coordinator.Submission.Fresh.{Of, link_steps-Linked, Fresh-Chain}
use trax.Coordinator.Submission.Stored.{
  steps_made, chain_made, saga_made, stored, Unseen, find_new, create_saga-Rows,
}
use trax.Coordinator.Submission.Created.{Rows, drawn}

module _ (msg : TraxMessage) (payload : SagaSubmissionRequestPayload) where
  drawn-Of :
      (w : World) (calls : ℕ) (first : Bool) (l : List (String × SagaStepTemplate))
      (previous : String)
      → Of payload.saga_instance_id
          (link_steps previous (drawn msg payload w.env w.affinity_group calls first l))
  unfolding link_steps new_step
  drawn-Of w calls first [] previous = tt
  drawn-Of w calls first ((id, template) ∷ l) previous =
      (eq_refl payload.saga_instance_id, drawn-Of w (suc (suc (suc calls))) false l _)

  drawn-Waiting :
      (w : World) (calls : ℕ) (l : List (String × SagaStepTemplate)) (previous : String)
      → All Waiting (link_steps previous (drawn msg payload w.env w.affinity_group calls false l))
  unfolding link_steps new_step
  drawn-Waiting w calls [] previous = tt
  drawn-Waiting w calls ((id, template) ∷ l) previous =
      ((refl, refl), drawn-Waiting w (suc (suc (suc calls))) l _)

module _ (templates : Templates) (msg : TraxMessage) (payload : SagaSubmissionRequestPayload)
    (template : SagaTemplate) (first : String × SagaStepTemplate)
    (l : List (String × SagaStepTemplate)) (w : World) where
  abbrev pub steps' : List SagaStepInstance
  steps' = steps_made templates msg payload template (first ∷ l) w

  abbrev pub chain' : List SagaStepInstance
  chain' = chain_made templates msg payload template (first ∷ l) w

  abbrev pub saga' : SagaInstance
  saga' = saga_made templates msg payload template (first ∷ l) w

  abbrev pub stored' : Tables
  stored' = stored templates msg payload template (first ∷ l) w

  abbrev pub Submitted : Tables → Type 0
  Submitted t = (t ≡ stored') × Becomes payload.saga_instance_id running chain' t

  stored_sound : Unseen templates msg payload template (first ∷ l) w → Submitted stored'
  unfolding link_steps new_step new_saga saga_row
  stored_sound u = (refl, (forward [] here after chain row picture, chain, row))
    where
      calls : ℕ
      calls = suc (suc (suc w.calls))

      chain : Chain payload.saga_instance_id stored' chain'
      chain =
          Fresh-Chain payload.saga_instance_id w.tables stored' chain' refl u.steps_fresh u.no_steps
            (drawn-Of msg payload w calls true (first ∷ l) "") (link_steps-Linked steps' u.named)

      row : saga_state payload.saga_instance_id stored' ≡ some running
      row = ap (Option.map (λ s. s.state)) (find_new saga' w.tables.sagas u.saga_free)

      rest : List SagaStepInstance
      rest = drawn msg payload w.env w.affinity_group (suc (suc (suc calls))) false l

      made : SagaStepInstance
      made =
          new_step msg payload first.1 first.0 true (w.env.random (suc calls))
            (w.env.random (suc (suc calls))) w.affinity_group

      here : SagaStepInstance
      here = record made { next_saga_step_instance_id = head_id rest }

      after : List SagaStepInstance
      after = link_steps made.instance_id rest

      picture : Forward [] here after
      picture = record { done = tt; active = refl; waiting = drawn-Waiting msg payload w _ l _ }

  submission_logic-Made :
      w.saved ≡ none
      → Unseen templates msg payload template (first ∷ l) w
      → Outcome
          (λ _ v. Made Submitted v)
          (Stopped w.tables Submitted)
          (submission_logic templates true msg (some payload) w)
  unfolding submission_logic
  submission_logic-Made closed u =
      transaction-Outcome w.tables (λ _ v. Made Submitted v) (λ _ v. Rows w.tables stored' v)
        (Stopped w.tables Submitted) (λ a v r. r.0)
        (λ a v r. (refl, subst Submitted (sym r.1) (stored_sound u)))
        (λ a v r e. (refl, e, inr (subst Submitted (sym r.1) (stored_sound u))))
        (λ v e. (refl, e, inl refl)) (create_saga templates msg payload) w closed
        (λ e. (closed, e, inl refl)) refl
        (create_saga-Rows templates msg payload template (first ∷ l) w u)

  abbrev pub Answered : Option SubmissionReply → World → Type 0
  Answered reply v =
      ((reply ≡ some submission_success) × Made Submitted v)
      ⊎ ((reply ≡ some submission_failure) × Stopped w.tables Submitted v)

  answered :
      (e : Exit (Unit {0})) (v : World)
      → Outcome (λ _ v. Made Submitted v) (Stopped w.tables Submitted) (e, v)
      → Outcome Answered
          (Stopped w.tables Submitted)
          ((try (λ _. (e, v)) >>= λ done. attempt >> pure (some (reply_of done))) w)
  unfolding try attempt pure ◌>>=◌ reply_of
  answered (ok a) v h = elim (Bool-cases (v.env.fails v.calls)) [
    | inl e ↦ rw e (h.0, (v.calls, e), inr h.1)
    | inr e ↦ rw e (inl (refl, h))
  ]
  answered stop v h = elim (Bool-cases (v.env.fails v.calls)) [
    | inl e ↦ rw e h
    | inr e ↦ rw e (inr (refl, h))
  ]
  answered invalidate v h = h
  answered panicked v h = h
  answered hangs v h = h

  -- A coordinator is ready, no transaction is open, the templates of a submission exist and have at least one step, and
  -- nothing stored has the id or the key of the saga or of a step. The handler answers with a
  -- success and adds exactly the saga, RUNNING, and its steps, linked in the order of the
  -- templates, the first EXECUTION_CANDIDATE and the others pending, which is a sound picture. It
  -- stops, or answers with a failure, only in an environment that makes some call fail, with all
  -- of this done or none of it, and no transaction is open at the end. It never panics.
  pub handle_submission-Made :
      w.saved ≡ none
      → Unseen templates msg payload template (first ∷ l) w
      → Outcome Answered
          (Stopped w.tables Submitted)
          (handle_submission templates true msg (saga_submission_request (some payload) ∷ []) w)
  unfolding handle_submission try ◌>>=◌
  handle_submission-Made closed u =
      answered (submission_logic templates true msg (some payload) w).0
        (submission_logic templates true msg (some payload) w).1 (submission_logic-Made closed u)
