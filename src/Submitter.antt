-- ===== src/Submitter.antt =====
-- The announcements of a submitter, pkg/trax/submitter.go: its state, the answers of the
-- coordinator, the retries after a failure, and the consumers that it starts.
pub mod Consumers
pub mod Readiness
pub mod Backoff
pub mod Waiting
pub mod Outputs
pub mod Submitting
use trax.Prelude.{
  ℕ, zero, suc, ◌+◌, ◌*◌, String, Bool, true, false, not, Option, none, some, List, [], ◌∷◌, ◌==◌,
  ◌&&◌, any, leb, if◌then◌else◌,
}

pub record SubmitterNodeNames : Type 0 where
  pub inbox : String
  pub outbox : String

-- A cluster whose entry is missing from the map of the response has no node names.
pub record AnnounceResponse : Type 0 where
  pub cluster_ids : List String
  pub node_names_per_cluster : List (String × SubmitterNodeNames)

pub record SagaSubmitter : Type 0 where
  pub cluster_ids : List String
  pub node_names : List (String × SubmitterNodeNames)
  pub ready : Bool
  -- the keys of the map `consumersStarted`, the newest first
  pub consumers_started : List String
  -- the nodes of the calls of ConsumeNodeAsync, the newest first
  pub consumers : List String

-- NewDefaultSagaSubmitter
abbrev pub new_submitter : SagaSubmitter
new_submitter = record {
  cluster_ids = [];
  node_names = [];
  ready = false;
  consumers_started = [];
  consumers = [];
}

unfoldable pub names_of : String → List (String × SubmitterNodeNames) → Option SubmitterNodeNames
names_of cluster [] = none
names_of cluster ((c, n) ∷ names) = if c == cluster then some n else names_of cluster names

unfoldable pub put_names :
    String
    → SubmitterNodeNames
    → List (String × SubmitterNodeNames)
    → List (String × SubmitterNodeNames)
put_names cluster new [] = (cluster, new) ∷ []
put_names cluster new ((c, n) ∷ names) =
    if c == cluster then (c, new) ∷ names else (c, n) ∷ put_names cluster new names

abbrev pub is_started : String → List String → Bool
is_started inbox = any (λ i. i == inbox)

-- Starts a consumer on an inbox that has none.
unfoldable pub start_consumer : String → SagaSubmitter → SagaSubmitter
start_consumer inbox s = if is_started inbox s.consumers_started then s else record s {
  consumers_started = inbox ∷ s.consumers_started;
  consumers = inbox ∷ s.consumers;
}

unfoldable pub use_names : String → SubmitterNodeNames → SagaSubmitter → SagaSubmitter
unfolding start_consumer put_names
use_names cluster n s =
    start_consumer n.inbox (record s { node_names = put_names cluster n s.node_names })

-- The loop over the clusters of a response. `none` is a panic: a cluster without node names.
unfoldable pub use_clusters : AnnounceResponse → List String → SagaSubmitter → Option SagaSubmitter
unfolding use_names names_of
use_clusters r [] s = some s
use_clusters r (c ∷ clusters) s = elim (names_of c r.node_names_per_cluster) [
  | none ↦ none
  | some n ↦ use_clusters r clusters (use_names c n s)
]

unfoldable pub become_ready : AnnounceResponse → SagaSubmitter → SagaSubmitter
become_ready r s = if s.ready then s else record s { ready = true; cluster_ids = r.cluster_ids }

-- `none` as a response is one that cannot be decoded.
unfoldable pub process_announcement_response :
    Option AnnounceResponse → SagaSubmitter → Option SagaSubmitter
unfolding use_clusters become_ready
process_announcement_response none s = some s
process_announcement_response (some r) s = use_clusters r r.cluster_ids (become_ready r s)

-- IsReadyWithClusters
abbrev pub is_empty : List String → Bool
is_empty [] = true
is_empty (c ∷ clusters) = false

unfoldable pub is_ready_with_clusters : SagaSubmitter → Bool
is_ready_with_clusters s = s.ready && not (is_empty s.cluster_ids)

-- What comes of an announcement: status 200 with a response, or a failure.
pub data Answer : Type 0 where
  accepted : Option AnnounceResponse → Answer
  refused : Answer

unfoldable pub min : ℕ → ℕ → ℕ
min a b = if leb a b then a else b

-- The fast retries: at most so many, each after a wait. The result has the waits.
unfoldable pub fast_retry : ℕ → ℕ → ℕ → List Answer → SagaSubmitter → List ℕ × Option SagaSubmitter
unfolding process_announcement_response min
fast_retry zero interval backoff answers s = ([], some s)
fast_retry (suc left) interval backoff [] s = ([], some s)
fast_retry (suc left) interval backoff (accepted r ∷ answers) s =
    (backoff ∷ [], process_announcement_response r s)
fast_retry (suc left) interval backoff (refused ∷ answers) s =
    let (waits, t) = fast_retry left interval (min (2 * backoff) interval) answers s in
    (backoff ∷ waits, t)

-- One round of StartAnnouncement: the answer to the announcement, and those to its retries, as
-- many as the context lets the submitter wait for. Times are in milliseconds.
unfoldable pub announce : ℕ → Answer → List Answer → SagaSubmitter → Option SagaSubmitter
unfolding process_announcement_response fast_retry
announce interval (accepted r) answers s = process_announcement_response r s
announce interval refused answers s =
    (fast_retry 5 interval 1000 answers (record s { ready = false })).1

-- ResetForTesting
unfoldable pub reset_for_testing : SagaSubmitter → SagaSubmitter
reset_for_testing s = record s { ready = false; cluster_ids = []; node_names = [] }

pub data Event : Type 0 where
  announces : Answer → List Answer → Event
  resets : Event

unfoldable pub on_event : ℕ → Event → SagaSubmitter → Option SagaSubmitter
unfolding announce reset_for_testing
on_event interval (announces a answers) s = announce interval a answers s
on_event interval resets s = some (reset_for_testing s)

-- `none` once the submitter has panicked.
unfoldable pub on_events : ℕ → List Event → SagaSubmitter → Option SagaSubmitter
unfolding on_event
on_events interval [] s = some s
on_events interval (e ∷ events) s = elim (on_event interval e s) [
  | none ↦ none
  | some t ↦ on_events interval events t
]
