-- ===== src/Coordinator/Reload/Queues.antt =====
-- The queues of the steps that are listed.
use mathlib.Core.List.{Mem}
use trax.Prelude.{
  ℕ, String, ◌≡◌, refl, Bool, Bool-cases, true, false, inl, inr, List, [], ◌∷◌, All, arith,
  if◌then◌else◌,
}
use trax.Model.{SagaTemplate}
use trax.Coordinator.Reload.{
  TopicQueue, Initialization, new_initialization, called, each, Listing, initialize_step,
  initialize_template, initialize_cluster, reload_saga_templates, unmark_all_steps_for_template,
  unmark_in_clusters, handle_template_deleted, ReloadEvent, reloads, deletes, on_reload_event,
  on_reload_events,
}
use trax.Coordinator.Reload.Progress.{
  All-keep, All-Mem, Backed, Progress, refused, HasQueue, StandsFor, initialize_step-Progress,
  each-Progress,
}

module _ (queue_for : String → TopicQueue) (fails : ℕ → Bool) where
  -- A predicate of all steps of a template, of all templates of a cluster, of a listing.
  abbrev pub OfTemplate : (String → String → String → Type 0) → String → SagaTemplate → Type 0
  OfTemplate P cluster template =
      All (P cluster template.template_id) template.saga_step_template_ids

  abbrev pub OfListing : (String → String → String → Type 0) → Listing → Type 0
  OfListing P listing = All (λ c. All (OfTemplate P c.0) c.1) listing

  template_kept :
      (cluster : String) (template : SagaTemplate) (s t : Initialization)
      → ((q : TopicQueue) → Mem q s.queues → Mem q t.queues)
      → OfTemplate (λ k n i. HasQueue queue_for fails k n i s) cluster template
      → OfTemplate (λ k n i. HasQueue queue_for fails k n i t) cluster template
  template_kept cluster template s t grows h =
      All-Mem template.saga_step_template_ids (λ i m. grows _ m) h

  initialize_template-Progress :
      (cluster : String) (template : SagaTemplate) (s : Initialization)
      → OfTemplate (StandsFor queue_for fails) cluster template
      → Backed queue_for fails s
      → Progress queue_for fails s (initialize_template fails cluster template s)
        × ((initialize_template fails cluster template s).0 ≡ true
            → OfTemplate
                (λ k n i.
                  HasQueue queue_for fails k n i (initialize_template fails cluster template s).1)
                cluster
                template)
  unfolding initialize_template
  initialize_template-Progress cluster template =
      each-Progress queue_for fails (StandsFor queue_for fails cluster template.template_id)
        (λ i s. HasQueue queue_for fails cluster template.template_id i s)
        (initialize_step fails cluster template.template_id) (λ i s t grows m. grows _ m)
        (initialize_step-Progress queue_for fails cluster template.template_id)
        template.saga_step_template_ids

  -- A call that may fail, and what goes on where it does not.
  guarded :
      (R : Initialization → Type 0) (s : Initialization) (r : Bool × Initialization)
      → Backed queue_for fails s
      → Progress queue_for fails (called s) r × (r.0 ≡ true → R r.1)
      → Progress queue_for fails s (if fails s.calls then (false, called s) else r)
        × ((if fails s.calls then (false, called s) else r).0 ≡ true
            → R (if fails s.calls then (false, called s) else r).1)
  guarded R s r h p = elim (Bool-cases (fails s.calls)) [
    | inl f ↦ rw f (refused queue_for fails s s.calls f h, λ e. absurd (ground (arith, e)))
    | inr f ↦ rw f (record { backed = p.0.backed; grows = p.0.grows; excused = p.0.excused }, p.1)
  ]

  abbrev OfCluster : (String → String → String → Type 0) → String × List SagaTemplate → Type 0
  OfCluster P c = All (OfTemplate P c.0) c.1

  initialize_cluster-Progress :
      (c : String × List SagaTemplate) (s : Initialization)
      → OfCluster (StandsFor queue_for fails) c
      → Backed queue_for fails s
      → Progress queue_for fails s (initialize_cluster fails c s)
        × ((initialize_cluster fails c s).0 ≡ true
            → OfCluster
                (λ k n i. HasQueue queue_for fails k n i (initialize_cluster fails c s).1)
                c)
  unfolding initialize_cluster
  initialize_cluster-Progress (cluster, templates) s ps h =
      guarded (λ t. OfCluster (λ k n i. HasQueue queue_for fails k n i t) (cluster, templates)) s
        (each (initialize_template fails cluster) templates (called s)) h
        (each-Progress queue_for fails (OfTemplate (StandsFor queue_for fails) cluster)
          (λ template s. OfTemplate (λ k n i. HasQueue queue_for fails k n i s) cluster template)
          (initialize_template fails cluster) (template_kept cluster)
          (initialize_template-Progress cluster) templates (called s) ps h)

  reload_saga_templates-Progress :
      (listing : Listing) (s : Initialization)
      → OfListing (StandsFor queue_for fails) listing
      → Backed queue_for fails s
      → Progress queue_for fails s (reload_saga_templates fails listing s)
        × ((reload_saga_templates fails listing s).0 ≡ true
            → OfListing
                (λ k n i. HasQueue queue_for fails k n i (reload_saga_templates fails listing s).1)
                listing)
  unfolding reload_saga_templates
  reload_saga_templates-Progress listing s ps h =
      guarded (λ t. OfListing (λ k n i. HasQueue queue_for fails k n i t) listing) s
        (each (initialize_cluster fails) listing (called s)) h
        (each-Progress queue_for fails (OfCluster (StandsFor queue_for fails))
          (λ c s. OfCluster (λ k n i. HasQueue queue_for fails k n i s) c)
          (initialize_cluster fails)
          (λ c s t grows h. All-Mem c.1 (λ template m. template_kept c.0 template s t grows m) h)
          initialize_cluster-Progress listing (called s) ps h)

  unmark-Backed :
      (clusters : List String) (template : String) (s : Initialization)
      → Backed queue_for fails s
      → Backed queue_for fails (unmark_in_clusters fails clusters template s)
  unfolding unmark_in_clusters unmark_all_steps_for_template
  unmark-Backed [] template s h = h
  unmark-Backed (c ∷ clusters) template s h =
      unmark-Backed clusters template (unmark_all_steps_for_template fails c template s)
        (All-keep (λ k. Mem (queue_for k) s.queues) _ s.initialized_steps h)

  deleted-Backed :
      (clusters : List String) (template : String) (s : Initialization)
      → Backed queue_for fails s
      → Backed queue_for fails (handle_template_deleted fails clusters template s)
  unfolding handle_template_deleted
  deleted-Backed clusters template s h = elim (Bool-cases (fails s.calls)) [
    | inl f ↦ rw f h
    | inr f ↦ rw f (unmark-Backed clusters template (called s) h)
  ]

  -- The keys of all steps that are listed stand for their queues.
  abbrev pub EventStandsFor : ReloadEvent → Type 0
  EventStandsFor (reloads listing) = OfListing (StandsFor queue_for fails) listing
  EventStandsFor (deletes clusters template listing) = OfListing (StandsFor queue_for fails) listing

  event-Backed :
      (e : ReloadEvent) (s : Initialization)
      → EventStandsFor e
      → Backed queue_for fails s
      → Backed queue_for fails (on_reload_event fails e s)
  unfolding on_reload_event
  event-Backed (reloads listing) s e h = (reload_saga_templates-Progress listing s e h).0.backed
  event-Backed (deletes clusters template listing) s e h =
      (reload_saga_templates-Progress listing (handle_template_deleted fails clusters template s) e
        (deleted-Backed clusters template s h)).0.backed

  events-Backed :
      (events : List ReloadEvent) (s : Initialization)
      → All EventStandsFor events
      → Backed queue_for fails s
      → Backed queue_for fails (on_reload_events fails events s)
  unfolding on_reload_events
  events-Backed [] s es h = h
  events-Backed (e ∷ events) s es h =
      events-Backed events (on_reload_event fails e s) es.1 (event-Backed e s es.0 h)

  -- A reload has ended without an error and all listed steps have their queues, or with an error
  -- and some call fails.
  abbrev pub Reloaded : Listing → Bool × Initialization → Type 0
  Reloaded listing (true, s) = OfListing (λ k n i. HasQueue queue_for fails k n i s) listing
  Reloaded listing (false, s) = (n : ℕ) × (fails n ≡ true)

  ended :
      (listing : Listing) (r : Bool × Initialization)
      → (r.0 ≡ false → (n : ℕ) × (fails n ≡ true))
      → (r.0 ≡ true → OfListing (λ k n i. HasQueue queue_for fails k n i r.1) listing)
      → Reloaded listing r
  ended listing (true, s) excused provided = provided refl
  ended listing (false, s) excused provided = excused refl

  -- The keys of all steps that are ever listed stand for their queues, so that two steps with one
  -- key have one queue. Then a reload, after any reloads and deletions of templates and whichever
  -- calls fail, ends with the queue of every step that it lists declared and bound, or with an
  -- error, and that only where some call fails.
  pub reload_saga_templates-Reloaded :
      (events : List ReloadEvent) (listing : Listing)
      → All EventStandsFor events
      → OfListing (StandsFor queue_for fails) listing
      → Reloaded listing
          (reload_saga_templates fails listing (on_reload_events fails events new_initialization))
  reload_saga_templates-Reloaded events listing es ls =
      let (p, provided) =
        reload_saga_templates-Progress listing (on_reload_events fails events new_initialization) ls
          (events-Backed events new_initialization es tt) in
      ended listing _ p.excused provided
