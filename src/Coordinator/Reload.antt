-- ===== src/Coordinator/Reload.antt =====
-- The reload of the saga templates (pkg/trax/coordinator.go): reloadSagaTemplates with the set
-- `initializedSteps`, and handleTemplateDeleted. A run has the answers of the store as arguments;
-- `fails` says of each call, by its number, whether it fails. A loop returns whether it went to its
-- end, which is a nil error.
pub mod Progress
pub mod Queues
use Prim.Native.String.{◌++◌}
use text.Mathlib.Text.{starts_with}
use trax.Prelude.{
  ℕ, suc, String, Bool, true, false, not, List, [], ◌∷◌, ◌==◌, any, keep, if◌then◌else◌,
}
use trax.Model.{SagaTemplate}
use trax.Names.{
  get_step_topic_exchange_name, get_executor_inbox_queue_name, get_executor_inbox_binding_key,
}

-- A queue as InitQueueWithTopicBinding declares and binds it.
pub record TopicQueue : Type 0 where
  pub exchange : String
  pub queue : String
  pub binding : String

pub record Initialization : Type 0 where
  -- the number of calls made so far
  pub calls : ℕ
  -- the keys of the map `initializedSteps`
  pub initialized_steps : List String
  -- the queues that were declared, the newest first
  pub queues : List TopicQueue

abbrev pub new_initialization : Initialization
new_initialization = record { calls = 0; initialized_steps = []; queues = [] }

-- `{clusterId}:{sagaTemplateId}:`
abbrev pub template_prefix : String → String → String
template_prefix cluster template = cluster ++ (":" ++ (template ++ ":"))

unfoldable pub step_key : String → String → String → String
step_key cluster template step = template_prefix cluster template ++ step

unfoldable pub is_step_initialized : String → List String → Bool
is_step_initialized key keys = any (λ k. k == key) keys

unfoldable pub executor_queue : String → String → String → TopicQueue
unfolding get_step_topic_exchange_name get_executor_inbox_queue_name get_executor_inbox_binding_key
executor_queue cluster template step = record {
  exchange = get_step_topic_exchange_name cluster;
  queue = get_executor_inbox_queue_name cluster template step;
  binding = get_executor_inbox_binding_key cluster template step;
}

abbrev pub called : Initialization → Initialization
called s = record s { calls = suc s.calls }

-- A body of a loop that ends the function with an error, or goes on.
abbrev pub and_then :
    Bool × Initialization → (Initialization → Bool × Initialization) → Bool × Initialization
and_then (true, s) next = next s
and_then (false, s) next = (false, s)

unfoldable pub each {ℓ} :
    {A : Type ℓ}
    → (A → Initialization → Bool × Initialization)
    → List A
    → Initialization
    → Bool × Initialization
each body [] s = (true, s)
each body (x ∷ xs) s = and_then (body x s) (each body xs)

-- The clusters that are listed, each with the templates that are listed for it.
abbrev pub Listing : Type 0
Listing = List (String × List SagaTemplate)

module _ (fails : ℕ → Bool) where
  -- The queue is declared and the step marked, unless it is marked already.
  unfoldable pub initialize_step : String → String → String → Initialization → Bool × Initialization
  unfolding is_step_initialized
  initialize_step cluster template step s =
      if is_step_initialized (step_key cluster template step) s.initialized_steps
      then (true, s)
      else if fails s.calls
      then (false, called s)
      else (
        true,
        record (called s) {
          initialized_steps = step_key cluster template step ∷ s.initialized_steps;
          queues = executor_queue cluster template step ∷ s.queues;
        },
      )

  unfoldable pub initialize_template :
      String → SagaTemplate → Initialization → Bool × Initialization
  unfolding each initialize_step
  initialize_template cluster template =
      each (initialize_step cluster template.template_id) template.saga_step_template_ids

  unfoldable pub initialize_cluster :
      String × List SagaTemplate → Initialization → Bool × Initialization
  unfolding each initialize_template
  initialize_cluster (cluster, templates) s =
      if fails s.calls
      then (false, called s)
      else each (initialize_template cluster) templates (called s)

  unfoldable pub reload_saga_templates : Listing → Initialization → Bool × Initialization
  unfolding each initialize_cluster
  reload_saga_templates listing s =
      if fails s.calls then (false, called s) else each initialize_cluster listing (called s)

  unfoldable pub unmark_all_steps_for_template : String → String → Initialization → Initialization
  unmark_all_steps_for_template cluster template s = record s {
    initialized_steps =
        keep (λ k. not (starts_with k (template_prefix cluster template))) s.initialized_steps;
  }

  unfoldable pub unmark_in_clusters : List String → String → Initialization → Initialization
  unfolding unmark_all_steps_for_template
  unmark_in_clusters [] template s = s
  unmark_in_clusters (cluster ∷ clusters) template s =
      unmark_in_clusters clusters template (unmark_all_steps_for_template cluster template s)

  unfoldable pub handle_template_deleted : List String → String → Initialization → Initialization
  unfolding unmark_in_clusters
  handle_template_deleted clusters template s =
      if fails s.calls then called s else unmark_in_clusters clusters template (called s)

-- What wakes startTemplateReloadLoop: a tick or a notification, or the notification that a template
-- was deleted, with the clusters that are listed for the cleanup.
pub data ReloadEvent : Type 0 where
  reloads : Listing → ReloadEvent
  deletes : List String → String → Listing → ReloadEvent

unfoldable pub on_reload_event : (ℕ → Bool) → ReloadEvent → Initialization → Initialization
unfolding reload_saga_templates handle_template_deleted
on_reload_event fails (reloads listing) s = (reload_saga_templates fails listing s).1
on_reload_event fails (deletes clusters template listing) s =
    (reload_saga_templates fails listing (handle_template_deleted fails clusters template s)).1

unfoldable pub on_reload_events : (ℕ → Bool) → List ReloadEvent → Initialization → Initialization
unfolding on_reload_event
on_reload_events fails [] s = s
on_reload_events fails (e ∷ events) s = on_reload_events fails events (on_reload_event fails e s)
