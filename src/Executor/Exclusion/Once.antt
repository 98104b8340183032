-- ===== src/Executor/Exclusion/Once.antt =====
-- One process never runs an idempotency key twice at a time.
use trax.Prelude.{
  String, ◌≡◌, refl, ap, subst, ◌∙◌, inl, inr, Bool-cases, true, false, some, List, [], ◌∷◌, ◌++◌,
  ◌==◌, All, ◌&&◌,
}
use trax.Coordinator.Rules.Chain.{eq_comm}
use trax.Executor.{
  Kind, execution, compensation, SagaStepRequest, ExecutorConfig, request_key, is_sub_saga_executor,
  status, not_seen,
}
use trax.Executor.System.{
  Job, System, in_flight, receive, admit, request, new_executor, Reach, begins, goes_on, receives,
}
use trax.Executor.Guard.{start_job, start_execution, start_compensation, start_free}
use trax.Executor.Exclusion.{
  kind_is, at_work, keys_at_work, AllDifferent, Guarded, keys_at_work-append,
}
use trax.Executor.Exclusion.Steps.{Step-Guarded}

-- In every state that an executor can reach, with its handlers and goroutines in any order, failed
-- publications and restarts, the map of each kind holds exactly the keys of the jobs of the kind
-- that are at work, each once.
pub Reach-Guarded : {c : ExecutorConfig} {s : System} (kind : Kind) → Reach c s → Guarded kind s
unfolding keys_at_work
Reach-Guarded execution begins = record { held = refl; different = tt }
Reach-Guarded compensation begins = record { held = refl; different = tt }
Reach-Guarded kind (goes_on r step) = Step-Guarded kind step (Reach-Guarded kind r)

later_different :
    (k l : String) (xs ys zs : List String)
    → AllDifferent (xs ++ k ∷ (ys ++ l ∷ zs))
    → (k == l) ≡ false
later_different k l [] ys zs h = eq_comm l k (past ys h.0)
  where
    past : (m : List String) → All (λ x. (x == k) ≡ false) (m ++ l ∷ zs) → (l == k) ≡ false
    past [] p = p.0
    past (x ∷ m) p = past m p.1
later_different k l (x ∷ xs) ys zs h = later_different k l xs ys zs h.1

-- Two jobs of one kind are at work in a state that an executor can reach. Then they have different
-- idempotency keys: the service is never called for a key while a call for it is under way.
pub one_job_for_a_key :
    {c : ExecutorConfig} {s : System} (kind : Kind) (before : List Job) (j : Job)
    (between : List Job) (k : Job) (after : List Job)
    → Reach c s
    → s.jobs ≡ before ++ j ∷ (between ++ k ∷ after)
    → (kind_is kind j.kind && at_work j.phase) ≡ true
    → (kind_is kind k.kind && at_work k.phase) ≡ true
    → (j.key == k.key) ≡ false
unfolding keys_at_work
one_job_for_a_key {s} kind before j between k after r e active_j active_k =
    later_different j.key k.key (keys_at_work kind before) (keys_at_work kind between)
      (keys_at_work kind after) (subst AllDifferent listed (Reach-Guarded kind r).different)
  where
    first_of :
        (i : Job) (jobs : List Job)
        → (kind_is kind i.kind && at_work i.phase) ≡ true
        → keys_at_work kind (i ∷ jobs) ≡ i.key ∷ keys_at_work kind jobs
    first_of i jobs active = rw active refl

    listed :
        in_flight kind s
        ≡ keys_at_work kind before
          ++ j.key ∷ (keys_at_work kind between ++ k.key ∷ keys_at_work kind after)
    listed =
        (Reach-Guarded kind r).held
        ∙ ap (keys_at_work kind) e
        ∙ keys_at_work-append kind before (j ∷ (between ++ k ∷ after))
        ∙ ap (λ l. keys_at_work kind before ++ l) (first_of j (between ++ k ∷ after) active_j)
        ∙ ap (λ l. keys_at_work kind before ++ j.key ∷ l)
            (keys_at_work-append kind between (k ∷ after))
        ∙ ap (λ l. keys_at_work kind before ++ j.key ∷ (keys_at_work kind between ++ l))
            (first_of k after active_k)

-- The maps of executions and of compensations are apart. So every executor reaches a state in
-- which an execution and a compensation for one key are at work at the same time.
pub execution_with_compensation :
    (c : ExecutorConfig) (r : SagaStepRequest)
    → (s : System) × Reach c s
      × (keys_at_work execution s.jobs ≡ request_key c r ∷ [])
      × (keys_at_work compensation s.jobs ≡ request_key c r ∷ [])
unfolding receive admit start_job start_execution start_compensation start_free keys_at_work
execution_with_compensation c r = (
  receive c (request compensation (some r)) (status not_seen) first,
  goes_on (goes_on begins (receives (request execution (some r)) (status not_seen) new_executor))
      (receives (request compensation (some r)) (status not_seen) first),
  both.0,
  both.1,
)
  where
    first : System
    first = receive c (request execution (some r)) (status not_seen) new_executor

    second : System
    second = receive c (request compensation (some r)) (status not_seen) first

    both :
        (keys_at_work execution second.jobs ≡ request_key c r ∷ [])
        × (keys_at_work compensation second.jobs ≡ request_key c r ∷ [])
    both = elim (Bool-cases (is_sub_saga_executor c)) [
      | inl e ↦ rw e (refl, refl)
      | inr e ↦ rw e (refl, refl)
    ]
