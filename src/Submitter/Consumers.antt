-- ===== src/Submitter/Consumers.antt =====
-- One consumer for each inbox.
use trax.Prelude.{
  ℕ, zero, suc, ◌*◌, ◌≡◌, refl, ap, subst, Bool-cases, true, false, Option, none, some, List, [],
  ◌∷◌, ◌==◌, ◌||◌, All, String, inl, inr, arith, if◌then◌else◌,
}
use trax.Submitter.{
  AnnounceResponse, SagaSubmitter, new_submitter, names_of, put_names, is_started, start_consumer,
  use_names, use_clusters, become_ready, process_announcement_response, Answer, accepted, refused,
  fast_retry, announce, reset_for_testing, Event, announces, resets, on_event, on_events, min,
}

abbrev pub AllDifferent : List String → Type 0
AllDifferent [] = Unit
AllDifferent (k ∷ keys) = All (λ l. (l == k) ≡ false) keys × AllDifferent keys

-- The consumers are those of the map, each inbox once.
pub record OneEach (s : SagaSubmitter) : Type 0 where
  pub recorded : s.consumers ≡ s.consumers_started
  pub different : AllDifferent s.consumers_started

-- The same, of a submitter that has not panicked.
abbrev pub OneEach? : Option SagaSubmitter → Type 0
OneEach? none = Unit
OneEach? (some s) = OneEach s

not_started :
    (k : String) (keys : List String) → is_started k keys ≡ false → All (λ l. (l == k) ≡ false) keys
not_started k [] h = tt
not_started k (l ∷ keys) h = elim (Bool-cases (l == k)) [
  | inl e ↦ absurd (ground (arith, subst (λ b. (b || is_started k keys) ≡ false) e h))
  | inr e ↦ (e, not_started k keys (subst (λ b. (b || is_started k keys) ≡ false) e h))
]

start_consumer-OneEach :
    (inbox : String) (s : SagaSubmitter) → OneEach s → OneEach (start_consumer inbox s)
unfolding start_consumer
start_consumer-OneEach inbox s h = elim (Bool-cases (is_started inbox s.consumers_started)) [
  | inl e ↦ rw e h
  | inr e ↦ rw e (record {
    recorded = ap (λ l. inbox ∷ l) h.recorded;
    different = (not_started inbox s.consumers_started e, h.different);
  })
]

use_clusters-OneEach :
    (r : AnnounceResponse) (clusters : List String) (s : SagaSubmitter)
    → OneEach s
    → OneEach? (use_clusters r clusters s)
unfolding use_clusters use_names
use_clusters-OneEach r [] s h = h
use_clusters-OneEach r (c ∷ clusters) s h =
    elim (names_of c r.node_names_per_cluster)
      as (λ o.
        OneEach? (elim o [ none ↦ none | some n ↦ use_clusters r clusters (use_names c n s) ])) [
          | none ↦ tt
          | some n ↦ use_clusters-OneEach r clusters (use_names c n s) (
              start_consumer-OneEach n.inbox (record s { node_names = put_names c n s.node_names })
                (record { recorded = h.recorded; different = h.different }))
        ]

become_ready-OneEach :
    (r : AnnounceResponse) (s : SagaSubmitter) → OneEach s → OneEach (become_ready r s)
unfolding become_ready
become_ready-OneEach r s h =
    elim s.ready
      as (λ b. OneEach (if b then s else record s { ready = true; cluster_ids = r.cluster_ids })) [
        | true ↦ h
        | false ↦ record { recorded = h.recorded; different = h.different }
      ]

response-OneEach :
    (o : Option AnnounceResponse) (s : SagaSubmitter)
    → OneEach s
    → OneEach? (process_announcement_response o s)
unfolding process_announcement_response
response-OneEach none s h = h
response-OneEach (some r) s h =
    use_clusters-OneEach r r.cluster_ids (become_ready r s) (become_ready-OneEach r s h)

fast_retry-OneEach :
    (left interval backoff : ℕ) (answers : List Answer) (s : SagaSubmitter)
    → OneEach s
    → OneEach? (fast_retry left interval backoff answers s).1
unfolding fast_retry
fast_retry-OneEach zero interval backoff answers s h = h
fast_retry-OneEach (suc left) interval backoff [] s h = h
fast_retry-OneEach (suc left) interval backoff (accepted r ∷ answers) s h = response-OneEach r s h
fast_retry-OneEach (suc left) interval backoff (refused ∷ answers) s h =
    fast_retry-OneEach left interval (min (2 * backoff) interval) answers s h

on_event-OneEach :
    (interval : ℕ) (e : Event) (s : SagaSubmitter) → OneEach s → OneEach? (on_event interval e s)
unfolding on_event announce reset_for_testing
on_event-OneEach interval (announces (accepted r) answers) s h = response-OneEach r s h
on_event-OneEach interval (announces refused answers) s h =
    fast_retry-OneEach 5 interval 1000 answers (record s { ready = false })
      (record { recorded = h.recorded; different = h.different })
on_event-OneEach interval resets s h = record { recorded = h.recorded; different = h.different }

on_events-kept :
    (interval : ℕ) (events : List Event) (s : SagaSubmitter)
    → OneEach s
    → OneEach? (on_events interval events s)
unfolding on_events
on_events-kept interval [] s h = h
on_events-kept interval (e ∷ events) s h =
    go (on_event interval e s) (on_event-OneEach interval e s h)
      (λ t k. on_events-kept interval events t k)
  where
    go :
        (o : Option SagaSubmitter)
        → OneEach? o
        → ((t : SagaSubmitter) → OneEach t → OneEach? (on_events interval events t))
        → OneEach? (elim o [ none ↦ none | some t ↦ on_events interval events t ])
    go none k next = tt
    go (some t) k next = next t k

-- After any rounds of announcements, with any answers and retries, and any resets, a submitter
-- that has not panicked has started exactly one consumer on each inbox that it has recorded.
pub on_events-OneEach :
    (interval : ℕ) (events : List Event) → OneEach? (on_events interval events new_submitter)
on_events-OneEach interval events =
    on_events-kept interval events new_submitter (record { recorded = refl; different = tt })
