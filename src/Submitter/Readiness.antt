-- ===== src/Submitter/Readiness.antt =====
-- A submitter whose first announcement is answered before the coordinator knows its clusters.
use trax.Prelude.{
  ℕ, ◌≡◌, refl, subst, arith, Bool, true, false, Option, none, some, List, [], ◌∷◌, String, All,
  if◌then◌else◌,
}
use trax.Submitter.{
  AnnounceResponse, SagaSubmitter, names_of, put_names, is_started, start_consumer, use_names,
  use_clusters, become_ready, process_announcement_response, Answer, accepted, refused, announce,
  is_ready_with_clusters, Event, announces, resets, on_event, on_events,
}

-- Ready, and with no clusters.
abbrev pub Stuck : SagaSubmitter → Type 0
Stuck s = (s.ready ≡ true) × (s.cluster_ids ≡ [])

abbrev pub Stuck? : Option SagaSubmitter → Type 0
Stuck? none = Unit
Stuck? (some s) = Stuck s

start_consumer-Stuck :
    (inbox : String) (s : SagaSubmitter) → Stuck s → Stuck (start_consumer inbox s)
unfolding start_consumer
start_consumer-Stuck inbox s h =
    elim (is_started inbox s.consumers_started)
      as (λ b. Stuck (
        if b then s else record s {
          consumers_started = inbox ∷ s.consumers_started;
          consumers = inbox ∷ s.consumers;
        })) [ true ↦ h | false ↦ h ]

use_clusters-Stuck :
    (r : AnnounceResponse) (clusters : List String) (s : SagaSubmitter)
    → Stuck s
    → Stuck? (use_clusters r clusters s)
unfolding use_clusters use_names
use_clusters-Stuck r [] s h = h
use_clusters-Stuck r (c ∷ clusters) s h =
    elim (names_of c r.node_names_per_cluster)
      as (λ o.
        Stuck? (elim o [ none ↦ none | some n ↦ use_clusters r clusters (use_names c n s) ])) [
          | none ↦ tt
          | some n ↦ use_clusters-Stuck r clusters (use_names c n s) (
              start_consumer-Stuck n.inbox (record s { node_names = put_names c n s.node_names }) h)
        ]

become_ready-Stuck : (r : AnnounceResponse) (s : SagaSubmitter) → Stuck s → Stuck (become_ready r s)
unfolding become_ready
become_ready-Stuck r s h = (ready s.ready h.0, clusters s.ready h.0)
  where
    other : SagaSubmitter
    other = record s { ready = true; cluster_ids = r.cluster_ids }

    ready : (b : Bool) → b ≡ true → (if b then s else other).ready ≡ true
    ready true e = h.0
    ready false e = refl

    clusters : (b : Bool) → b ≡ true → (if b then s else other).cluster_ids ≡ []
    clusters true e = h.1
    clusters false e = cc

response-Stuck :
    (o : Option AnnounceResponse) (s : SagaSubmitter)
    → Stuck s
    → Stuck? (process_announcement_response o s)
unfolding process_announcement_response
response-Stuck none s h = h
response-Stuck (some r) s h =
    use_clusters-Stuck r r.cluster_ids (become_ready r s) (become_ready-Stuck r s h)

-- The announcement of the round is accepted.
abbrev pub Accepted : Event → Type 0
Accepted (announces (accepted r) answers) = Unit
Accepted _ = ⊥

on_event-Stuck :
    (interval : ℕ) (e : Event) (s : SagaSubmitter)
    → Accepted e
    → Stuck s
    → Stuck? (on_event interval e s)
unfolding on_event announce
on_event-Stuck interval (announces (accepted r) answers) s a h = response-Stuck r s h
on_event-Stuck interval (announces refused answers) s a h = absurd a
on_event-Stuck interval resets s a h = absurd a

then_events :
    (interval : ℕ) (events : List Event) (o : Option SagaSubmitter)
    → Stuck? o
    → ((t : SagaSubmitter) → Stuck t → Stuck? (on_events interval events t))
    → Stuck? (elim o [ none ↦ none | some t ↦ on_events interval events t ])
then_events interval events none k next = tt
then_events interval events (some t) k next = next t k

on_events-Stuck :
    (interval : ℕ) (events : List Event) (s : SagaSubmitter)
    → All Accepted events
    → Stuck s
    → Stuck? (on_events interval events s)
unfolding on_events
on_events-Stuck interval [] s a h = h
on_events-Stuck interval (e ∷ events) s a h =
    then_events interval events (on_event interval e s) (on_event-Stuck interval e s a.0 h)
      (λ t k. on_events-Stuck interval events t a.1 k)

first_answer-Stuck :
    (r : AnnounceResponse) (s : SagaSubmitter)
    → s.ready ≡ false
    → r.cluster_ids ≡ []
    → Stuck (become_ready r s)
unfolding become_ready
first_answer-Stuck r s unready no_clusters = (ready s.ready unready, clusters s.ready unready)
  where
    new : SagaSubmitter
    new = record s { ready = true; cluster_ids = r.cluster_ids }

    ready : (b : Bool) → b ≡ false → (if b then s else new).ready ≡ true
    ready true e = cc
    ready false e = refl

    clusters : (b : Bool) → b ≡ false → (if b then s else new).cluster_ids ≡ []
    clusters true e = cc
    clusters false e = no_clusters

-- A submitter that is not ready gets an answer with no clusters. After any number of further
-- announcements it is still not ready with clusters, whatever clusters their answers have, if all
-- of them are accepted and no reset comes in between.
pub empty_answer_blocks :
    (interval : ℕ) (r : AnnounceResponse) (answers : List Answer) (events : List Event)
    (s t : SagaSubmitter)
    → s.ready ≡ false
    → r.cluster_ids ≡ []
    → All Accepted events
    → on_events interval (announces (accepted (some r)) answers ∷ events) s ≡ some t
    → is_ready_with_clusters t ≡ false
unfolding on_events on_event announce process_announcement_response is_ready_with_clusters
empty_answer_blocks interval r answers events s t unready no_clusters all_accepted done =
    let h = subst Stuck? done (
      then_events interval events (use_clusters r r.cluster_ids (become_ready r s))
        (use_clusters-Stuck r r.cluster_ids (become_ready r s)
          (first_answer-Stuck r s unready no_clusters))
        (λ u k. on_events-Stuck interval events u all_accepted k)) in
    ground (arith, h.0, h.1)
