-- ===== src/Coordinator/Submission/Repeated.antt =====
-- A submission that is delivered again.
use trax.Prelude.{
  ◌≡◌, refl, ap, ◌∙◌, inl, inr, Bool, Bool-cases, Option-cases, true, false, suc, none, some, List,
  [], ◌∷◌, String,
}
use trax.Model.{SagaInstance}
use trax.Names.{get_saga_idempotency_key, saga_idempotency_key}
use trax.Store.{
  Tables, World, Exit, ok, stop, invalidate, panicked, hangs, pure, exit, secure_random_string,
  gets, modify, attempt, try, ◌>>=◌, ◌>>◌,
}
use trax.Store.Calls.{
  begin_unless_open, begin_transaction, commit_transaction, rollback_transaction,
  finish_transaction,
}
use trax.Store.Outcome.{Outcome, bind-Outcome, query-Outcome}
use trax.Store.Saving.{
  Templates, saga_template_row, get_saga_template, get_saga_step_template, saga_step_template_row,
  saga_key_exists, save_unless, save_saga_instance_idempotently,
}
use trax.Coordinator.Rules.Transaction.{opened}
use trax.Coordinator.Transit.{transaction, transaction_if, mark_saga_invalid}
use trax.Coordinator.Submission.{
  TraxMessage, SagaSubmissionRequestPayload, saga_submission_request, new_saga, create_steps,
  create_saga, submission_logic, reply_of, handle_submission,
}

-- The open transaction holds no change.
abbrev Same : Tables → World → Type 0
Same t w = (w.saved ≡ some t) × (w.tables ≡ t)

-- No transaction is open and no row has changed.
abbrev pub Kept : Tables → World → Type 0
Kept t w = (w.saved ≡ none) × (w.tables ≡ t)

module _ (templates : Templates) (msg : TraxMessage) (payload : SagaSubmissionRequestPayload)
    (t : Tables) where
  create_steps-Same :
      (first : Bool) (ids : List String) (w : World)
      → Same t w
      → Outcome (λ _ v. Same t v) (Same t) (create_steps templates msg payload first ids w)
  unfolding create_steps get_saga_step_template secure_random_string gets pure exit ◌>>=◌
  create_steps-Same first [] w s = s
  create_steps-Same first (id ∷ ids) w s =
      query-Outcome _ (Same t) (λ _. saga_step_template_row id templates) _ w (λ _. s)
        (elim (Option-cases (saga_step_template_row id templates)) [
          | inl missing ↦ rw missing s
          | inr (template, there) ↦ rw there (
              bind-Outcome (λ _ v. Same t v) _ (Same t)
                (create_steps templates msg payload false ids) _ _
                (create_steps-Same false ids (record w { calls = suc (suc (suc w.calls)) }) s)
                (λ steps v h. h))
        ])

  saga_key : String
  saga_key =
      get_saga_idempotency_key msg.cluster_id payload.zone_id payload.saga_template_id
        payload.saga_instance_id

  known :
      (saga : SagaInstance) (w : World)
      → Same t w
      → saga_key_exists (saga_idempotency_key saga) t ≡ true
      → Outcome (λ b v. (b ≡ false) × Same t v) (Same t) (save_saga_instance_idempotently saga w)
  unfolding save_saga_instance_idempotently save_unless pure
  known saga w s seen =
      query-Outcome _ (Same t) (saga_key_exists (saga_idempotency_key saga)) _ w (λ _. s)
        (rw (ap (saga_key_exists (saga_idempotency_key saga)) s.1 ∙ seen) (refl, s))

  -- A saga with the key is found, so nothing is saved.
  create_saga-Same :
      (w : World)
      → Same t w
      → saga_key_exists saga_key t ≡ true
      → Outcome (λ _ v. Same t v) (Same t) (create_saga templates msg payload w)
  unfolding create_saga get_saga_template saga_key new_saga saga_idempotency_key
      secure_random_string pure exit ◌>>=◌
  create_saga-Same w s seen =
      query-Outcome _ (Same t) (λ _. saga_template_row payload.saga_template_id templates) _ w
        (λ _. s)
        (elim (Option-cases (saga_template_row payload.saga_template_id templates)) [
          | inl missing ↦ rw missing s
          | inr (template, there) ↦ rw there (
              bind-Outcome (λ _ v. Same t v) _ (Same t)
                (create_steps templates msg payload true template.saga_step_template_ids) _ _
                (create_steps-Same true template.saga_step_template_ids
                  (record w { calls = suc (suc w.calls) }) s)
                (λ steps v s.
                  bind-Outcome (λ b v. (b ≡ false) × Same t v) (λ _ v. Same t v) (Same t)
                    (save_saga_instance_idempotently
                      (new_saga msg payload template (w.env.random (suc w.calls)) steps))
                    _ v
                    (known (new_saga msg payload template (w.env.random (suc w.calls)) steps) v s
                      seen)
                    (λ b v r. rw r.0 r.1)))
        ])

  finished :
      (e : Exit (Unit {0})) (v : World)
      → Outcome (λ _ v. Same t v) (Same t) (e, v)
      → Outcome (λ _ v. Kept t v) (Kept t) (finish_transaction (λ _. true) mark_saga_invalid (e, v))
  unfolding finish_transaction commit_transaction rollback_transaction pure ◌>>=◌
  finished (ok a) v s = rw s.0 (elim (Bool-cases (v.env.fails v.calls)) [
    | inl e ↦ rw e (elim (Bool-cases (v.env.lands v.calls)) [
      | inl l ↦ rw l (refl, s.1)
      | inr l ↦ rw l (refl, refl)
    ])
    | inr e ↦ rw e (refl, s.1)
  ])
  finished stop v s = rw s.0 (refl, refl)
  finished invalidate v s = absurd s
  finished panicked v s = s
  finished hangs v s = s

  submission_logic-Kept :
      (ready : Bool) (w : World)
      → Kept t w
      → saga_key_exists saga_key t ≡ true
      → Outcome (λ _ v. Kept t v) (Kept t) (submission_logic templates ready msg (some payload) w)
  unfolding submission_logic transaction transaction_if begin_transaction begin_unless_open attempt
      modify exit ◌>>=◌
  submission_logic-Kept false w k seen = k
  submission_logic-Kept true w k seen = rw k.0 (elim (Bool-cases (w.env.fails w.calls)) [
    | inl e ↦ rw e (refl, k.1)
    | inr e ↦ rw e (
        finished (create_saga templates msg payload (opened w)).0
          (create_saga templates msg payload (opened w)).1
          (create_saga-Same (opened w) (ap some k.1, k.1) seen))
  ])

  replied :
      (e : Exit (Unit {0})) (v : World)
      → Outcome (λ _ v. Kept t v) (Kept t) (e, v)
      → (w : World)
      → Outcome
          (λ _ v. Kept t v)
          (Kept t)
          ((try (λ _. (e, v)) >>= λ done. attempt >> pure (some (reply_of done))) w)
  unfolding try attempt pure ◌>>=◌
  replied (ok a) v k w = elim (Bool-cases (v.env.fails v.calls)) [ inl e ↦ rw e k | inr e ↦ rw e k ]
  replied stop v k w = elim (Bool-cases (v.env.fails v.calls)) [ inl e ↦ rw e k | inr e ↦ rw e k ]
  replied invalidate v k w = k
  replied panicked v k w = k
  replied hangs v k w = k

-- A saga with the idempotency key of a submission is stored, and no transaction is open. Then the
-- handler of the submission leaves every row as it is and no transaction open, whichever calls
-- fail, and does not panic.
pub repeated_submission_changes_nothing :
    (templates : Templates) (ready : Bool) (msg : TraxMessage)
    (payload : SagaSubmissionRequestPayload) (w : World)
    → w.saved ≡ none
    → saga_key_exists
        (get_saga_idempotency_key msg.cluster_id payload.zone_id payload.saga_template_id
          payload.saga_instance_id)
        w.tables
      ≡ true
    → Outcome
        (λ _ v. Kept w.tables v)
        (Kept w.tables)
        (handle_submission templates ready msg (saga_submission_request (some payload) ∷ []) w)
unfolding handle_submission try ◌>>=◌ saga_key
repeated_submission_changes_nothing templates ready msg payload w closed seen =
    replied templates msg payload w.tables (submission_logic templates ready msg (some payload) w).0
      (submission_logic templates ready msg (some payload) w).1
      (submission_logic-Kept templates msg payload w.tables ready w (closed, refl) seen) w
