-- ===== src/Executor/Exclusion.antt =====
-- The maps of an executor hold the keys of the jobs that are at work, and no key twice.
pub mod Steps
pub mod Once
use trax.Prelude.{
  String, ◌≡◌, refl, sym, ap, subst, ◌∙◌, Bool, Bool-cases, true, false, not, ◌&&◌, ◌||◌, none,
  some, List, [], ◌∷◌, ◌++◌, ◌==◌, All, any, keep, arith, eq_iff, eq_refl, inl, inr, if◌then◌else◌,
}
use trax.Coordinator.Rules.Chain.{eq_comm}
use trax.Executor.{
  StatusAnswer, Kind, execution, compensation, SagaStepRequest, ExecutorConfig, request_key,
  is_sub_saga_executor, outcome, status, status_error, SagaIdempotencyKeyStatus,
}
use trax.Executor.Guard.{
  Start, answer_now, run_here, run_detached, is_in_flight, release, start_job,
}
use trax.Executor.System.{
  Outcome, Phase, running, returned, released, Job, System, in_flight, with_in_flight, new_job,
  admit, Incoming, request, receive, in_phase, with_jobs, Step, new_executor, Reach, begins,
  goes_on, receives, returns, releases, publishes, fails_to_publish, restarts,
}

abbrev pub kind_is : Kind → Kind → Bool
kind_is execution execution = true
kind_is compensation compensation = true
kind_is _ _ = false

-- From the guard until the key is deleted.
abbrev pub at_work : Phase → Bool
at_work running = true
at_work (returned o) = true
at_work (released o) = false

-- The keys of the jobs of a kind that are at work.
unfoldable pub keys_at_work : Kind → List Job → List String
keys_at_work kind [] = []
keys_at_work kind (j ∷ jobs) =
    if kind_is kind j.kind && at_work j.phase
    then j.key ∷ keys_at_work kind jobs
    else keys_at_work kind jobs

-- The texts are different.
abbrev pub AllDifferent : List String → Type 0
AllDifferent [] = Unit
AllDifferent (k ∷ keys) = All (λ l. (l == k) ≡ false) keys × AllDifferent keys

pub record Guarded (kind : Kind) (s : System) : Type 0 where
  pub held : in_flight kind s ≡ keys_at_work kind s.jobs
  pub different : AllDifferent (in_flight kind s)

pub keys_at_work-append :
    (kind : Kind) (xs ys : List Job)
    → keys_at_work kind (xs ++ ys) ≡ keys_at_work kind xs ++ keys_at_work kind ys
unfolding keys_at_work
keys_at_work-append kind [] ys = refl
keys_at_work-append kind (j ∷ xs) ys = ground (arith, keys_at_work-append kind xs ys)

-- One job in the middle is another one, which counts the same.
pub keys_at_work-change :
    (kind : Kind) (before : List Job) (j j' : Job) (after : List Job)
    → keys_at_work kind (j ∷ after) ≡ keys_at_work kind (j' ∷ after)
    → keys_at_work kind (before ++ j ∷ after) ≡ keys_at_work kind (before ++ j' ∷ after)
keys_at_work-change kind before j j' after e =
    keys_at_work-append kind before (j ∷ after)
    ∙ ap (λ l. keys_at_work kind before ++ l) e
    ∙ sym (keys_at_work-append kind before (j' ∷ after))

release-other :
    (k : String) (keys : List String) → All (λ l. (l == k) ≡ false) keys → release k keys ≡ keys
unfolding release
release-other k [] h = refl
release-other k (l ∷ keys) h = rw h.0 (ap (λ m. l ∷ m) (release-other k keys h.1))

pub release-middle :
    (k : String) (xs ys : List String)
    → AllDifferent (xs ++ k ∷ ys)
    → release k (xs ++ k ∷ ys) ≡ xs ++ ys
unfolding release
release-middle k [] ys h = rw (eq_refl k) (release-other k ys h.0)
release-middle k (x ∷ xs) ys h =
    rw (eq_comm k x (middle xs h.0)) (ap (λ m. x ∷ m) (release-middle k xs ys h.1))
  where
    middle : (l : List String) → All (λ y. (y == x) ≡ false) (l ++ k ∷ ys) → (k == x) ≡ false
    middle [] m = m.0
    middle (y ∷ l) m = middle l m.1

pub AllDifferent-skip :
    (k : String) (xs ys : List String) → AllDifferent (xs ++ k ∷ ys) → AllDifferent (xs ++ ys)
AllDifferent-skip k [] ys h = h.1
AllDifferent-skip k (x ∷ xs) ys h = (skip xs h.0, AllDifferent-skip k xs ys h.1)
  where
    skip :
        (l : List String)
        → All (λ y. (y == x) ≡ false) (l ++ k ∷ ys)
        → All (λ y. (y == x) ≡ false) (l ++ ys)
    skip [] m = m.1
    skip (y ∷ l) m = (m.0, skip l m.1)

pub not_in_flight :
    (k : String) (keys : List String)
    → is_in_flight keys k ≡ false
    → All (λ l. (l == k) ≡ false) keys
not_in_flight k [] h = tt
not_in_flight k (l ∷ keys) h = elim (Bool-cases (l == k)) [
  | inl e ↦ absurd (ground (arith, subst (λ b. (b || is_in_flight keys k) ≡ false) e h))
  | inr e ↦ (e, not_in_flight k keys (subst (λ b. (b || is_in_flight keys k) ≡ false) e h))
]

-- A job that is not at work changes nothing.
pub Guarded-idle :
    (kind : Kind) (s : System) (jobs : List Job)
    → Guarded kind s
    → keys_at_work kind s.jobs ≡ keys_at_work kind jobs
    → Guarded kind (with_jobs jobs s)
Guarded-idle execution s jobs g e = record { held = g.held ∙ e; different = g.different }
Guarded-idle compensation s jobs g e = record { held = g.held ∙ e; different = g.different }
