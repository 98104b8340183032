-- ===== src/Executor/Exclusion/Steps.antt =====
-- Every step of an executor keeps its maps in agreement with its jobs.
use trax.Prelude.{
  String, ◌≡◌, refl, sym, ap, subst, ◌∙◌, Bool, Bool-cases, true, false, none, some, List, ◌∷◌,
  ◌++◌, arith, inl, inr,
}
use trax.Executor.{
  StatusAnswer, Kind, execution, compensation, SagaStepRequest, ExecutorConfig, request_key,
  is_sub_saga_executor, outcome, status, status_error, SagaIdempotencyKeyStatus, unknown, not_seen,
  in_progress, completed,
}
use trax.Executor.Guard.{
  Start, answer_now, run_here, run_detached, is_in_flight, release, start_free, start_execution,
  start_compensation, start_job,
}
use trax.Executor.System.{
  Outcome, Phase, running, returned, released, Job, System, in_flight, with_in_flight, new_job,
  admit, request, empty, unknown_payload, receive, in_phase, with_jobs, Step, receives, returns,
  releases, publishes, fails_to_publish, restarts,
}
use trax.Executor.Exclusion.{
  keys_at_work, AllDifferent, Guarded, keys_at_work-append, keys_at_work-change, release-middle,
  AllDifferent-skip, not_in_flight, Guarded-idle,
}

-- The service is called only for a key that is not in the map.
abbrev FreeToRun : List String → String → Start → Type 0
FreeToRun keys key (answer_now o) = Unit
FreeToRun keys key run_here = is_in_flight keys key ≡ false
FreeToRun keys key run_detached = is_in_flight keys key ≡ false

start_free-FreeToRun :
    (sub : Bool) (keys : List String) (key : String) (s : SagaIdempotencyKeyStatus)
    → is_in_flight keys key ≡ false
    → FreeToRun keys key (start_free sub s)
unfolding start_free
start_free-FreeToRun sub keys key unknown h = tt
start_free-FreeToRun true keys key in_progress h = h
start_free-FreeToRun false keys key in_progress h = tt
start_free-FreeToRun true keys key not_seen h = h
start_free-FreeToRun false keys key not_seen h = h
start_free-FreeToRun true keys key completed h = h
start_free-FreeToRun false keys key completed h = h

start_job-FreeToRun :
    (kind : Kind) (sub : Bool) (keys : List String) (key : String) (a : StatusAnswer)
    → FreeToRun keys key (start_job kind sub keys key a)
unfolding start_job start_execution start_compensation
start_job-FreeToRun execution sub keys key (status_error text) = tt
start_job-FreeToRun compensation sub keys key (status_error text) = tt
start_job-FreeToRun execution sub keys key (status s) = elim (Bool-cases (is_in_flight keys key)) [
  | inl e ↦ rw e tt
  | inr e ↦ rw e (start_free-FreeToRun sub keys key s e)
]
start_job-FreeToRun compensation sub keys key (status s) =
    elim (Bool-cases (is_in_flight keys key)) [
      | inl e ↦ rw e tt
      | inr e ↦ rw e (start_free-FreeToRun false keys key s e)
    ]

-- A key that is added to the map with a job that is at work.
joined :
    (key : String) (keys active : List String)
    → keys ≡ active
    → AllDifferent keys
    → is_in_flight keys key ≡ false
    → (key ∷ keys ≡ key ∷ active) × AllDifferent (key ∷ keys)
joined key keys active e d f = (ap (λ l. key ∷ l) e, (not_in_flight key keys f, d))

admit-Guarded :
    (kind other : Kind) (r : SagaStepRequest) (key : String) (start : Start) (s : System)
    → Guarded kind s
    → FreeToRun (in_flight other s) key start
    → Guarded kind (admit other r key start s)
unfolding admit keys_at_work
admit-Guarded execution execution r key (answer_now o) s g f = record {
  held = g.held;
  different = g.different;
}
admit-Guarded execution execution r key run_here s g f =
    let (e, d) = joined key _ _ g.held g.different f in record { held = e; different = d }
admit-Guarded execution execution r key run_detached s g f =
    let (e, d) = joined key _ _ g.held g.different f in record { held = e; different = d }
admit-Guarded compensation compensation r key (answer_now o) s g f = record {
  held = g.held;
  different = g.different;
}
admit-Guarded compensation compensation r key run_here s g f =
    let (e, d) = joined key _ _ g.held g.different f in record { held = e; different = d }
admit-Guarded compensation compensation r key run_detached s g f =
    let (e, d) = joined key _ _ g.held g.different f in record { held = e; different = d }
admit-Guarded execution compensation r key (answer_now o) s g f = record {
  held = g.held;
  different = g.different;
}
admit-Guarded execution compensation r key run_here s g f = record {
  held = g.held;
  different = g.different;
}
admit-Guarded execution compensation r key run_detached s g f = record {
  held = g.held;
  different = g.different;
}
admit-Guarded compensation execution r key (answer_now o) s g f = record {
  held = g.held;
  different = g.different;
}
admit-Guarded compensation execution r key run_here s g f = record {
  held = g.held;
  different = g.different;
}
admit-Guarded compensation execution r key run_detached s g f = record {
  held = g.held;
  different = g.different;
}

-- The key of a job at work is taken out of the map as the job is released.
released_pair :
    (kind : Kind) (before after : List Job) (key : String) (j j' : Job) (keys : List String)
    (jobs : List Job)
    → keys_at_work kind (j ∷ after) ≡ key ∷ keys_at_work kind after
    → keys_at_work kind (j' ∷ after) ≡ keys_at_work kind after
    → jobs ≡ before ++ j ∷ after
    → keys ≡ keys_at_work kind jobs
    → AllDifferent keys
    → (release key keys ≡ keys_at_work kind (before ++ j' ∷ after))
      × AllDifferent (release key keys)
released_pair kind before after key j j' keys jobs on off e held different =
    (gone ∙ sym left, subst AllDifferent (sym gone) (AllDifferent-skip key _ _ different'))
  where
    there : keys ≡ keys_at_work kind before ++ key ∷ keys_at_work kind after
    there =
        held
        ∙ ap (keys_at_work kind) e
        ∙ keys_at_work-append kind before (j ∷ after)
        ∙ ap (λ l. keys_at_work kind before ++ l) on

    different' : AllDifferent (keys_at_work kind before ++ key ∷ keys_at_work kind after)
    different' = subst AllDifferent there different

    gone : release key keys ≡ keys_at_work kind before ++ keys_at_work kind after
    gone = ap (release key) there ∙ release-middle key _ _ different'

    left :
        keys_at_work kind (before ++ j' ∷ after)
        ≡ keys_at_work kind before ++ keys_at_work kind after
    left =
        keys_at_work-append kind before (j' ∷ after) ∙ ap (λ l. keys_at_work kind before ++ l) off

releases-Guarded :
    (kind other : Kind) (r : SagaStepRequest) (key : String) (phase : Phase) (o : Outcome)
    (before after : List Job) (s : System)
    → s.jobs ≡ before ++ new_job other r key phase ∷ after
    → phase ≡ returned o
    → Guarded kind s
    → Guarded kind (
        with_in_flight other
          (release key (in_flight other s))
          (with_jobs (before ++ new_job other r key (released o) ∷ after) s))
unfolding keys_at_work
releases-Guarded execution execution r key phase o before after s e p g =
    let (h, d) =
      released_pair execution before after key (new_job execution r key phase)
        (new_job execution r key (released o)) _ _ (rw p refl) refl e g.held g.different in
    record { held = h; different = d }
releases-Guarded compensation compensation r key phase o before after s e p g =
    let (h, d) =
      released_pair compensation before after key (new_job compensation r key phase)
        (new_job compensation r key (released o)) _ _ (rw p refl) refl e g.held g.different in
    record { held = h; different = d }
releases-Guarded execution compensation r key phase o before after s e p g = record {
  held =
      g.held
      ∙ ap (keys_at_work execution) e
      ∙ keys_at_work-change execution before (new_job compensation r key phase)
          (new_job compensation r key (released o)) after refl;
  different = g.different;
}
releases-Guarded compensation execution r key phase o before after s e p g = record {
  held =
      g.held
      ∙ ap (keys_at_work compensation) e
      ∙ keys_at_work-change compensation before (new_job execution r key phase)
          (new_job execution r key (released o)) after refl;
  different = g.different;
}

at_work_same :
    (kind : Kind) (j : Job) (o : Outcome) (after : List Job)
    → j.phase ≡ running
    → keys_at_work kind (j ∷ after) ≡ keys_at_work kind (in_phase (returned o) j ∷ after)
unfolding keys_at_work
at_work_same kind j o after p = ground arith

idle_gone :
    (kind : Kind) (before : List Job) (j : Job) (after : List Job) (o : Outcome) (jobs : List Job)
    → jobs ≡ before ++ j ∷ after
    → j.phase ≡ released o
    → keys_at_work kind jobs ≡ keys_at_work kind (before ++ after)
unfolding keys_at_work
idle_gone kind before j after o jobs e p =
    ap (keys_at_work kind) e
    ∙ keys_at_work-append kind before (j ∷ after)
    ∙ ap (λ l. keys_at_work kind before ++ l) (ground arith)
    ∙ sym (keys_at_work-append kind before after)

pub Step-Guarded :
    {c : ExecutorConfig} {s t : System} (kind : Kind) → Step c s t → Guarded kind s → Guarded kind t
unfolding receive keys_at_work
Step-Guarded kind (receives empty a s) g = g
Step-Guarded kind (receives unknown_payload a s) g = g
Step-Guarded kind (receives (request other none) a s) g = g
Step-Guarded {c} kind (receives (request other (some r)) a s) g =
    admit-Guarded kind other r (request_key c r) _ s g
      (start_job-FreeToRun other (is_sub_saga_executor c) (in_flight other s) (request_key c r) a)
Step-Guarded kind (returns before j after a s e p) g = Guarded-idle kind s _ g (
    ap (keys_at_work kind) e
    ∙ keys_at_work-change kind before j _ after
        (at_work_same kind j (outcome j.kind j.key a) after p))
Step-Guarded kind (releases before j after o s e p) g =
    releases-Guarded kind j.kind j.request j.key j.phase o before after s e p g
Step-Guarded execution (publishes before j after o s e p) g = record {
  held = g.held ∙ idle_gone execution before j after o s.jobs e p;
  different = g.different;
}
Step-Guarded compensation (publishes before j after o s e p) g = record {
  held = g.held ∙ idle_gone compensation before j after o s.jobs e p;
  different = g.different;
}
Step-Guarded kind (fails_to_publish before j after o s e p) g =
    Guarded-idle kind s _ g (idle_gone kind before j after o s.jobs e p)
Step-Guarded execution (restarts s) g = record { held = refl; different = tt }
Step-Guarded compensation (restarts s) g = record { held = refl; different = tt }
