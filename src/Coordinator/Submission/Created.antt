-- ===== src/Coordinator/Submission/Created.antt =====
-- The steps that the loop over the step templates creates, and the rows once they are saved.
use mathlib.Core.List.{append_assoc, append-nil}
use trax.Prelude.{
  ℕ, suc, String, ◌≡◌, refl, sym, ap, subst, ◌∙◌, Bool, true, false, some, List, [], ◌∷◌, ◌++◌,
  ◌==◌, ◌||◌, All, arith, Option,
}
use trax.Model.{SagaStepInstance, SagaStepTemplate}
use trax.Names.{saga_step_idempotency_key}
use trax.Store.{Environment, Tables, World, pure, gets, modify, secure_random_string, ◌>>=◌}
use trax.Store.Calls.{query}
use trax.Store.Outcome.{Outcome, bind-Outcome, query-Outcome, Failed, tick}
use trax.Store.Saving.{
  Templates, saga_step_template_row, get_saga_step_template, same_step, step_key_exists,
  insert_step, save_unless, save_saga_step_instance_idempotently,
}
use trax.Coordinator.Submission.{
  TraxMessage, SagaSubmissionRequestPayload, new_step, create_steps, save_steps,
}
use trax.Coordinator.Submission.Fresh.{Free, Fresh, any-All}

-- The work on the rows so far is in the open transaction.
abbrev pub Rows : Tables → Tables → World → Type 0
Rows saved t w = (w.saved ≡ some saved) × (w.tables ≡ t)

-- The body has stopped, in an environment that makes some call fail.
abbrev pub Lost : Tables → World → Type 0
Lost saved w = (w.saved ≡ some saved) × Failed w

module _ (msg : TraxMessage) (payload : SagaSubmissionRequestPayload) (env : Environment)
    (affinity : String) where
  -- The steps that are created from templates with their ids, when `calls` calls have been made:
  -- one that reads the template and two that draw ids for each.
  abbrev pub drawn : ℕ → Bool → List (String × SagaStepTemplate) → List SagaStepInstance
  drawn calls first [] = []
  drawn calls first ((id, template) ∷ rest) =
      new_step msg payload template id first (env.random (suc calls)) (env.random (suc (suc calls)))
        affinity
      ∷ drawn (suc (suc (suc calls))) false rest

abbrev pub ids_of : List (String × SagaStepTemplate) → List String
ids_of [] = []
ids_of ((id, template) ∷ rest) = id ∷ ids_of rest

-- Each id is that of its template.
abbrev pub Present : Templates → List (String × SagaStepTemplate) → Type 0
Present templates = All λ p. saga_step_template_row p.0 templates ≡ some p.1

module _ (templates : Templates) (msg : TraxMessage) (payload : SagaSubmissionRequestPayload)
    (saved t : Tables) where
  pub create_steps-drawn :
      (first : Bool) (l : List (String × SagaStepTemplate)) (w : World)
      → Present templates l
      → Rows saved t w
      → Outcome
          (λ steps v.
            Rows saved t v × (steps ≡ drawn msg payload w.env w.affinity_group w.calls first l))
          (Lost saved)
          (create_steps templates msg payload first (ids_of l) w)
  unfolding create_steps get_saga_step_template secure_random_string gets pure ◌>>=◌
  create_steps-drawn first [] w p r = (r, refl)
  create_steps-drawn first ((id, template) ∷ l) w p r =
      query-Outcome _ (Lost saved) (λ _. saga_step_template_row id templates) _ w (λ e. (r.0, e))
        (rw p.0 (
          bind-Outcome _ _ (Lost saved) (create_steps templates msg payload false (ids_of l))
            (λ steps. pure (made ∷ steps)) later (create_steps-drawn false l later p.1 r)
            (λ steps v h. (h.0, ap (λ l. made ∷ l) h.1))))
    where
      made : SagaStepInstance
      made =
          new_step msg payload template id first (w.env.random (suc w.calls))
            (w.env.random (suc (suc w.calls))) w.affinity_group

      later : World
      later = record w { calls = suc (suc (suc w.calls)) }

pub second_apart : (a b : Bool) → (a || b) ≡ false → b ≡ false
second_apart true b h = ground arith
second_apart false b h = h

keys_apart :
    (step : SagaStepInstance) (rows : List SagaStepInstance)
    → Free step rows
    → All (λ s. (saga_step_idempotency_key s == saga_step_idempotency_key step) ≡ false) rows
keys_apart step [] h = tt
keys_apart step (s ∷ rows) h = (second_apart _ _ h.0, keys_apart step rows h.1)

-- The rows of steps are followed by new ones.
abbrev pub with_steps : List SagaStepInstance → Tables → Tables
with_steps steps t = record t { steps = t.steps ++ steps }

module _ {ℓ} {A : Type ℓ} (saved t u : Tables) (a : A) (exists : Tables → Bool)
    (insert : A → Tables → Option Tables) where
  -- A row that is free is inserted.
  pub save-Outcome :
      (w : World)
      → Rows saved t w
      → exists t ≡ false
      → insert a t ≡ some u
      → Outcome
          (λ b v. (b ≡ true) × Rows saved u v)
          (Lost saved)
          ((query exists >>= λ b. save_unless b a insert) w)
  unfolding save_unless modify pure ◌>>=◌
  save-Outcome w r free inserted =
      query-Outcome _ (Lost saved) exists _ w (λ e. (r.0, e))
        (rw (ap exists r.1 ∙ free) (then_insert (tick w) r))
    where
      then_insert :
          (v : World)
          → Rows saved t v
          → Outcome (λ b v. (b ≡ true) × Rows saved u v) (Lost saved) (save_unless false a insert v)
      then_insert v r =
          query-Outcome _ (Lost saved) (insert a) _ v (λ e. (r.0, e))
            (rw (ap (insert a) r.1 ∙ inserted) (refl, (r.0, refl)))

insert_step-Free :
    (s : SagaStepInstance) (t : Tables)
    → Free s t.steps
    → insert_step s t ≡ some (with_steps (s ∷ []) t)
unfolding insert_step
insert_step-Free s t h = rw (any-All (same_step s) t.steps h) refl

step_key_exists-Free :
    (s : SagaStepInstance) (t : Tables)
    → Free s t.steps
    → step_key_exists (saga_step_idempotency_key s) t ≡ false
unfolding step_key_exists
step_key_exists-Free s t h = any-All _ t.steps (keys_apart s t.steps h)

pub save_steps-Fresh :
    (saved t : Tables) (steps : List SagaStepInstance) (w : World)
    → Rows saved t w
    → Fresh steps t.steps
    → Outcome (λ _ v. Rows saved (with_steps steps t) v) (Lost saved) (save_steps steps w)
unfolding save_steps save_saga_step_instance_idempotently pure
save_steps-Fresh saved t [] w r h =
    (r.0, r.1 ∙ ap (λ l. record t { steps = l }) (sym (append-nil t.steps)))
save_steps-Fresh saved t (s ∷ steps) w r h =
    bind-Outcome (λ b v. (b ≡ true) × Rows saved (with_steps (s ∷ []) t) v) _ (Lost saved) _ _ w
      (save-Outcome saved t (with_steps (s ∷ []) t) s _ insert_step w r
        (step_key_exists-Free s t h.0) (insert_step-Free s t h.0))
      (λ b v stored.
        subst
          (λ l.
            Outcome (λ _ u. Rows saved (record t { steps = l }) u) (Lost saved)
              (save_steps steps v))
          (append_assoc t.steps (s ∷ []) steps)
          (save_steps-Fresh saved (with_steps (s ∷ []) t) steps v stored.1 h.1))
