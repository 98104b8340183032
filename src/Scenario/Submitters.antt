-- ===== src/Scenario/Submitters.antt =====
-- A submitter and its waits for a saga.
use trax.Prelude.{
  ℕ, zero, suc, if◌then◌else◌, String, true, false, Option, none, some, List, [], ◌∷◌, ◌≡◌, ◌≤◌,
  refl, ◌==◌, arith, All, length,
}
use trax.State.{running, committed, execution_done}
use trax.Model.{StringMap, map_get}
use trax.Submitter.{
  SubmitterNodeNames, AnnounceResponse, SagaSubmitter, new_submitter, accepted, refused, Event,
  announces, resets, on_events, fast_retry, is_ready_with_clusters,
}
use trax.Submitter.Consumers.{OneEach?, on_events-OneEach}
use trax.Submitter.Readiness.{empty_answer_blocks}
use trax.Submitter.Backoff.{total, fast_retry-bounds}
use trax.Submitter.Outputs.{
  ListedStep, extract_outputs_from_steps, extract_compensation_outputs_from_steps, outputs-last_of,
}
use trax.Submitter.Waiting.{
  Round, tick, Ending, never_found, completed, wait_for_saga_completion, poll_for_completion,
  wait_for_saga_completion-ends,
}

abbrev names : SubmitterNodeNames
names = record { inbox = "in"; outbox = "out" }

abbrev response : AnnounceResponse
response = record { cluster_ids = "c" ∷ []; node_names_per_cluster = ("c", names) ∷ [] }

abbrev no_clusters : AnnounceResponse
no_clusters = record { cluster_ids = []; node_names_per_cluster = [] }

abbrev started : SagaSubmitter
started = record {
  cluster_ids = "c" ∷ [];
  node_names = ("c", names) ∷ [];
  ready = true;
  consumers_started = "in" ∷ [];
  consumers = "in" ∷ [];
}

abbrev events : List Event
events =
    announces (accepted (some response)) []
    ∷ announces refused (refused ∷ accepted (some response) ∷ [])
    ∷ resets
    ∷ announces (accepted (some response)) []
    ∷ []

on_events-OneEach_example : OneEach? (some started)
unfolding on_events
on_events-OneEach_example = on_events-OneEach 30000 events

abbrev blocked_submitter : SagaSubmitter
blocked_submitter = record started { cluster_ids = [] }

no_clusters_first :
    on_events 30000
      (announces (accepted (some no_clusters)) [] ∷ announces (accepted (some response)) [] ∷ [])
      new_submitter
    ≡ some blocked_submitter
unfolding on_events
no_clusters_first = refl

empty_answer_blocks_example : is_ready_with_clusters blocked_submitter ≡ false
empty_answer_blocks_example =
    empty_answer_blocks 30000 no_clusters [] (announces (accepted (some response)) [] ∷ [])
      new_submitter blocked_submitter refl refl (tt, tt) no_clusters_first

abbrev waits : List ℕ
waits = 1000 ∷ 2000 ∷ 3000 ∷ []

fast_retry-bounds_example : All (λ w. w ≤ 3000) waits × (length waits ≤ 5) × (total waits ≤ 31000)
unfolding fast_retry
fast_retry-bounds_example =
    fast_retry-bounds 3000 (refused ∷ refused ∷ accepted (some response) ∷ []) new_submitter
      (omega arith)

-- A decoder that knows one text.
abbrev decode : String → Option StringMap
decode text = if text == "x" then some (("a", "1") ∷ []) else none

abbrev listed : String → String → ListedStep
listed result compensation = record {
  state = execution_done;
  result = result;
  compensation_result = compensation;
}

outputs-last_of_example :
    (map_get "a"
        (extract_outputs_from_steps decode (listed "x" "" ∷ listed "y" "" ∷ listed "" "x" ∷ []))
      ≡ some "1")
    × (map_get "a" (
          extract_compensation_outputs_from_steps decode
            (listed "x" "" ∷ listed "y" "" ∷ listed "" "x" ∷ []))
        ≡ none)
outputs-last_of_example =
    outputs-last_of decode "a" (listed "x" "" ∷ listed "y" "" ∷ listed "" "x" ∷ [])

abbrev outputs : StringMap
outputs = ("a", "1") ∷ []

wait_for_saga_completion-ends_example :
    (e : Ending) × (wait_for_saga_completion 100
        (tick 50 (some running) none none ∷ tick 101 none none none ∷ [])
      ≡ some e)
wait_for_saga_completion-ends_example =
    wait_for_saga_completion-ends 100 (tick 50 (some running) none none ∷ [])
      (tick 101 none none none) [] (omega arith)

committed_in_time :
    wait_for_saga_completion 100
      (tick 50 (some running) none none ∷ tick 70 (some committed) (some outputs) none ∷ [])
    ≡ some (completed committed outputs)
unfolding wait_for_saga_completion
committed_in_time = refl

abbrev fifteen : ℕ
fifteen = 15

abbrev failing : ℕ → List Round
failing zero = []
failing (suc n) = tick 7 none none none ∷ failing n

fifteen_failures : poll_for_completion 100 (failing 15) ≡ some (never_found 15)
unfolding poll_for_completion
fifteen_failures = refl
