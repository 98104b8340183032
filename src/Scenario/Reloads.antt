-- ===== src/Scenario/Reloads.antt =====
-- A template of two steps that is deleted and listed again.
use trax.Prelude.{eqb, ℕ, String, ◌==◌, Bool, refl, List, [], ◌∷◌, if◌then◌else◌}
use trax.Model.{SagaTemplate}
use trax.Coordinator.Reload.{
  TopicQueue, Listing, ReloadEvent, reloads, deletes, new_initialization, executor_queue, step_key,
  reload_saga_templates, on_reload_events,
}
use trax.Coordinator.Reload.Progress.{StandsFor}
use trax.Coordinator.Reload.Queues.{OfListing, Reloaded, reload_saga_templates-Reloaded}

abbrev template : SagaTemplate
template = record {
  template_id = "t";
  display_name = "";
  description = "";
  labels = [];
  tags = [];
  metadata = [];
  saga_step_template_ids = "s" ∷ "u" ∷ [];
}

abbrev listing : Listing
listing = ("c", template ∷ []) ∷ []

abbrev queue_for : String → TopicQueue
queue_for key = if key == "c:t:s" then executor_queue "c" "t" "s" else executor_queue "c" "t" "u"

-- The third call fails.
abbrev fails : ℕ → Bool
fails n = eqb n 2

abbrev events : List ReloadEvent
events = reloads listing ∷ deletes ("c" ∷ []) "t" listing ∷ []

listed : OfListing queue_for fails (StandsFor queue_for fails) listing
unfolding step_key
listed = ((((refl, (refl, tt)), tt)), tt)

reload_saga_templates-Reloaded_example :
    Reloaded queue_for fails listing
      (reload_saga_templates fails listing (on_reload_events fails events new_initialization))
reload_saga_templates-Reloaded_example =
    reload_saga_templates-Reloaded queue_for fails events listing (listed, (listed, tt)) listed
