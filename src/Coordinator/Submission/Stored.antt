-- ===== src/Coordinator/Submission/Stored.antt =====
-- The rows that a submission adds.
use trax.Prelude.{
  suc, String, ◌≡◌, refl, sym, subst, true, false, some, List, [], ◌∷◌, ◌++◌, ◌==◌, All, any, arith,
  eq_refl, find?, if◌then◌else◌,
}
use trax.Model.{SagaInstance, SagaStepInstance, SagaTemplate, SagaStepTemplate}
use trax.Names.{saga_idempotency_key}
use trax.Store.{Tables, World, M, pure, secure_random_string, ◌>>=◌}
use trax.Store.Outcome.{Outcome, bind-Outcome, query-Outcome}
use trax.Store.Saving.{
  Templates, saga_template_row, get_saga_template, same_saga, saga_key_exists, insert_saga,
  save_saga_instance_idempotently,
}
use trax.Coordinator.Rules.Transaction.{opened}
use trax.Coordinator.Submission.{
  TraxMessage, SagaSubmissionRequestPayload, new_saga, link_steps, create_steps, save_steps,
  create_saga,
}
use trax.Coordinator.Submission.Fresh.{Fresh, NoneOf, Named, any-All}
use trax.Coordinator.Submission.Created.{
  Rows, Lost, drawn, ids_of, Present, create_steps-drawn, save-Outcome, save_steps-Fresh,
  second_apart,
}

-- The row has neither the id nor the key of the saga.
abbrev pub FreeSaga : SagaInstance → List SagaInstance → Type 0
FreeSaga saga = All λ s. same_saga saga s ≡ false

pub find_new :
    (saga : SagaInstance) (rows : List SagaInstance)
    → FreeSaga saga rows
    → find? (λ s. s.instance_id == saga.instance_id) (rows ++ saga ∷ []) ≡ some saga
find_new saga [] h = rw (eq_refl saga.instance_id) refl
find_new saga (s ∷ rows) h = ground (arith, h.0, find_new saga rows h.1)

module _ (templates : Templates) (msg : TraxMessage) (payload : SagaSubmissionRequestPayload)
    (template : SagaTemplate) (l : List (String × SagaStepTemplate)) (w : World) where
  -- The steps and the saga that the run makes: two calls are made before the id of the saga's
  -- execution is drawn.
  abbrev pub steps_made : List SagaStepInstance
  steps_made = drawn msg payload w.env w.affinity_group (suc (suc (suc w.calls))) true l

  abbrev pub chain_made : List SagaStepInstance
  chain_made = link_steps "" steps_made

  abbrev pub saga_made : SagaInstance
  saga_made = new_saga msg payload template (w.env.random (suc (suc w.calls))) steps_made

  abbrev pub stored : Tables
  stored = record { sagas = w.tables.sagas ++ saga_made ∷ []; steps = w.tables.steps ++ chain_made }

  -- The templates are there, and nothing stored has the id of the saga or an id that is drawn.
  pub record Unseen : Type 0 where
    pub template_there : saga_template_row payload.saga_template_id templates ≡ some template
    pub ids_there : template.saga_step_template_ids ≡ ids_of l
    pub step_templates_there : Present templates l
    pub saga_free : FreeSaga saga_made w.tables.sagas
    pub no_steps : NoneOf payload.saga_instance_id w.tables.steps
    pub steps_fresh : Fresh chain_made w.tables.steps
    pub named : Named steps_made

  keys_free :
      (rows : List SagaInstance)
      → FreeSaga saga_made rows
      → any (λ s. saga_idempotency_key s == saga_idempotency_key saga_made) rows ≡ false
  keys_free [] h = refl
  keys_free (s ∷ rows) h =
      rw
        (second_apart (s.instance_id == saga_made.instance_id)
          (saga_idempotency_key s == saga_idempotency_key saga_made) h.0)
        (keys_free rows h.1)

  abbrev with_saga : Tables
  with_saga = record w.tables { sagas = w.tables.sagas ++ saga_made ∷ [] }

  saga_saved :
      (v : World)
      → Unseen
      → Rows w.tables w.tables v
      → Outcome
          (λ b v. (b ≡ true) × Rows w.tables with_saga v)
          (Lost w.tables)
          (save_saga_instance_idempotently saga_made v)
  unfolding save_saga_instance_idempotently saga_key_exists insert_saga
  saga_saved v u r =
      save-Outcome w.tables w.tables with_saga saga_made _ insert_saga v r
        (keys_free w.tables.sagas u.saga_free)
        (rw (any-All (same_saga saga_made) w.tables.sagas u.saga_free) refl)

  -- The body of the transaction adds exactly the saga and its steps.
  pub create_saga-Rows :
      Unseen
      → Outcome
          (λ _ v. Rows w.tables stored v)
          (Lost w.tables)
          (create_saga templates msg payload (opened w))
  unfolding create_saga get_saga_template secure_random_string pure ◌>>=◌
  create_saga-Rows u =
      query-Outcome _ (Lost w.tables) (λ _. saga_template_row payload.saga_template_id templates) _
        (opened w) (λ e. (refl, e))
        (rw u.template_there (
          rw u.ids_there (
            bind-Outcome _ _ (Lost w.tables) (create_steps templates msg payload true (ids_of l)) _
              ready
              (create_steps-drawn templates msg payload w.tables w.tables true l ready
                u.step_templates_there (refl, refl))
              (λ steps v h.
                subst
                  (λ steps.
                    Outcome (λ _ v. Rows w.tables stored v) (Lost w.tables) (rest_of steps v))
                  (sym h.1)
                  (bind-Outcome _ _ (Lost w.tables) (save_saga_instance_idempotently saga_made) _ v
                    (saga_saved v u h.0)
                    (λ b v s.
                      rw s.0
                        (save_steps-Fresh w.tables with_saga chain_made v s.1 u.steps_fresh)))))))
    where
      ready : World
      ready = record w { calls = suc (suc (suc w.calls)); saved = some w.tables }

      rest_of : List SagaStepInstance → M (Unit {0})
      rest_of steps = do
        saved ←
            save_saga_instance_idempotently
              (new_saga msg payload template (w.env.random (suc (suc w.calls))) steps)
        if saved then save_steps (link_steps "" steps) else pure tt
