-- ===== src/Store/Saving.antt =====
-- The statements of pkg/trax/store_psql.go that create the rows of a saga, and those that read
-- the templates. `instance_id` and `saga_idempotency_key` are unique in both tables of instances.
use trax.Prelude.{
  String, Bool, true, false, Option, none, some, List, [], ◌∷◌, ◌++◌, ◌==◌, ◌||◌, any, find?,
  if◌then◌else◌,
}
use trax.Model.{SagaInstance, SagaStepInstance, SagaTemplate, SagaStepTemplate}
use trax.Names.{saga_idempotency_key, saga_step_idempotency_key}
use trax.Store.{Tables, M, pure, ◌>>=◌, ◌>>◌}
use trax.Store.Calls.{query, affected}

-- The rows of `saga_templates` and `saga_step_templates`, which no saga changes.
pub record Templates : Type 0 where
  pub saga_templates : List SagaTemplate
  pub saga_step_templates : List SagaStepTemplate

unfoldable pub saga_template_row : String → Templates → Option SagaTemplate
saga_template_row id t = find? (λ s. s.template_id == id) t.saga_templates

unfoldable pub saga_step_template_row : String → Templates → Option SagaStepTemplate
saga_step_template_row id t = find? (λ s. s.template_id == id) t.saga_step_templates

-- `none` is "saga template not found".
unfoldable pub get_saga_template : Templates → String → M (Option SagaTemplate)
unfolding query
get_saga_template t id = query (λ _. saga_template_row id t)

-- `none` is "saga step template not found".
unfoldable pub get_saga_step_template : Templates → String → M (Option SagaStepTemplate)
unfolding query
get_saga_step_template t id = query (λ _. saga_step_template_row id t)

-- The row has the key or the id of the instance.
abbrev pub same_saga : SagaInstance → SagaInstance → Bool
same_saga saga s =
    s.instance_id == saga.instance_id || saga_idempotency_key s == saga_idempotency_key saga

abbrev pub same_step : SagaStepInstance → SagaStepInstance → Bool
same_step step s =
    s.instance_id == step.instance_id
    || saga_step_idempotency_key s == saga_step_idempotency_key step

-- `SELECT EXISTS(SELECT 1 … WHERE saga_idempotency_key = key)`
unfoldable pub saga_key_exists : String → Tables → Bool
saga_key_exists key t = any (λ s. saga_idempotency_key s == key) t.sagas

unfoldable pub step_key_exists : String → Tables → Bool
step_key_exists key t = any (λ s. saga_step_idempotency_key s == key) t.steps

-- `INSERT`, refused where the id or the key is taken.
unfoldable pub insert_saga : SagaInstance → Tables → Option Tables
insert_saga saga t =
    if any (same_saga saga) t.sagas then none else some (record t { sagas = t.sagas ++ saga ∷ [] })

unfoldable pub insert_step : SagaStepInstance → Tables → Option Tables
insert_step step t =
    if any (same_step step) t.steps then none else some (record t { steps = t.steps ++ step ∷ [] })

-- The result says whether a row was added.
unfoldable pub save_unless {ℓ} : {A : Type ℓ} → Bool → A → (A → Tables → Option Tables) → M Bool
unfolding query
save_unless true a insert = pure false
save_unless false a insert = do t ← query (insert a); affected t; pure true

unfoldable pub save_saga_instance_idempotently : SagaInstance → M Bool
unfolding query save_unless saga_key_exists insert_saga
save_saga_instance_idempotently saga = do
  exists ← query (saga_key_exists (saga_idempotency_key saga))
  save_unless exists saga insert_saga

unfoldable pub save_saga_step_instance_idempotently : SagaStepInstance → M Bool
unfolding query save_unless step_key_exists insert_step
save_saga_step_instance_idempotently step = do
  exists ← query (step_key_exists (saga_step_idempotency_key step))
  save_unless exists step insert_step
