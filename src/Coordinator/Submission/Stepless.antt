-- ===== src/Coordinator/Submission/Stepless.antt =====
-- A saga template without steps.
use mathlib.Core.Option
use trax.Prelude.{
  String, ◌≡◌, refl, sym, ap, subst, inl, inr, true, none, some, List, [], ◌∷◌, ◌++◌, ◌==◌, keep,
}
use trax.State.{running}
use trax.Model.{SagaStepInstance, SagaTemplate}
use trax.Store.{Tables, World}
use trax.Store.Rows.{saga_row, steps_of_saga}
use trax.Store.Outcome.{Outcome}
use trax.Store.Saving.{Templates}
use trax.Coordinator.Rules.Transitions.{saga_state}
use trax.Coordinator.Rules.Transaction.{transaction-Outcome}
use trax.Coordinator.Soundness.Held.{Made, Stopped}
use trax.Coordinator.Submission.{
  TraxMessage, SagaSubmissionRequestPayload, new_saga, link_steps, create_saga, submission_logic,
}
use trax.Coordinator.Submission.Fresh.{NoneOf}
use trax.Coordinator.Submission.Created.{Rows}
use trax.Coordinator.Submission.Stored.{saga_made, stored, Unseen, find_new, create_saga-Rows}

keep_none :
    (g : String) (rows : List SagaStepInstance)
    → NoneOf g rows
    → keep (λ s. s.saga_instance_id == g) (rows ++ []) ≡ []
keep_none g [] h = refl
keep_none g (s ∷ rows) h = rw h.0 (keep_none g rows h.1)

-- The saga is RUNNING and has no steps.
abbrev pub Stepless : String → Tables → Type 0
Stepless g t = (saga_state g t ≡ some running) × (steps_of_saga g t ≡ [])

-- A submission for a template without steps, of a saga whose id and key nothing stored has, reaches
-- a coordinator that is ready and has no transaction open. It is accepted: it creates a saga that is
-- RUNNING and has no steps. It stops only in an environment that makes some call fail, with the
-- saga stored or nothing done, and no transaction is open at the end.
pub submission_logic-Stepless :
    (templates : Templates) (msg : TraxMessage) (payload : SagaSubmissionRequestPayload)
    (template : SagaTemplate) (w : World)
    → w.saved ≡ none
    → Unseen templates msg payload template [] w
    → Outcome
        (λ _ v. Made (Stepless payload.saga_instance_id) v)
        (Stopped w.tables (Stepless payload.saga_instance_id))
        (submission_logic templates true msg (some payload) w)
unfolding submission_logic saga_row steps_of_saga new_saga link_steps
submission_logic-Stepless templates msg payload template w closed u =
    transaction-Outcome w.tables (λ _ v. Made (Stepless payload.saga_instance_id) v)
      (λ _ v. Rows w.tables (stored templates msg payload template [] w) v)
      (Stopped w.tables (Stepless payload.saga_instance_id)) (λ a v r. r.0)
      (λ a v r. (refl, subst (Stepless payload.saga_instance_id) (sym r.1) empty))
      (λ a v r e. (refl, e, inr (subst (Stepless payload.saga_instance_id) (sym r.1) empty)))
      (λ v e. (refl, e, inl refl)) (create_saga templates msg payload) w closed
      (λ e. (closed, e, inl refl)) refl (create_saga-Rows templates msg payload template [] w u)
  where
    empty : Stepless payload.saga_instance_id (stored templates msg payload template [] w)
    empty = (
      ap (Option.map (λ s. s.state))
          (find_new (saga_made templates msg payload template [] w) w.tables.sagas u.saga_free),
      keep_none payload.saga_instance_id w.tables.steps u.no_steps,
    )
