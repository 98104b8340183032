-- ===== src/Coordinator/Reload/Progress.antt =====
-- The loops of the reload: every key that is marked has its queue.
use mathlib.Core.List.{Mem, mem-cons_self, mem-cons_of_mem}
use trax.Prelude.{
  ℕ, String, ◌≡◌, refl, sym, subst, Bool, Bool-cases, true, false, inl, inr, List, [], ◌∷◌, ◌==◌,
  ◌||◌, All, keep, arith, eq_iff,
}
use trax.Coordinator.Reload.{
  TopicQueue, Initialization, step_key, is_step_initialized, executor_queue, called, and_then, each,
  initialize_step,
}

pub All-keep :
    {A : Type 0} (P : A → Type 0) (p : A → Bool) (l : List A) → All P l → All P (keep p l)
All-keep P p [] h = tt
All-keep P p (x ∷ l) h = elim (Bool-cases (p x)) [
  | inl e ↦ rw e (h.0, All-keep P p l h.1)
  | inr e ↦ rw e (All-keep P p l h.1)
]

pub All-Mem :
    {A : Type 0} {P Q : A → Type 0} (l : List A) → ((x : A) → P x → Q x) → All P l → All Q l
All-Mem [] f h = tt
All-Mem (x ∷ l) f h = (f x h.0, All-Mem l f h.1)

-- A key is marked only once the queue that it stands for is there.
module _ (queue_for : String → TopicQueue) (fails : ℕ → Bool) where
  abbrev pub Backed : Initialization → Type 0
  Backed s = All (λ k. Mem (queue_for k) s.queues) s.initialized_steps

  -- What a loop does: every key stays backed, no queue is lost, and an error is one of a call.
  pub record Progress (s : Initialization) (r : Bool × Initialization) : Type 0 where
    pub backed : Backed r.1
    pub grows : (q : TopicQueue) → Mem q s.queues → Mem q r.1.queues
    pub excused : r.0 ≡ false → (n : ℕ) × (fails n ≡ true)

  pub refused :
      (s : Initialization) (n : ℕ) → fails n ≡ true → Backed s → Progress s (false, called s)
  refused s n e h = record { backed = h; grows = λ q m. m; excused = λ _. (n, e) }

  -- The queue of a step.
  abbrev pub HasQueue : String → String → String → Initialization → Type 0
  HasQueue cluster template step s = Mem (executor_queue cluster template step) s.queues

  -- The key of a step stands for its queue.
  abbrev pub StandsFor : String → String → String → Type 0
  StandsFor cluster template step =
      queue_for (step_key cluster template step) ≡ executor_queue cluster template step

  marked-Mem :
      (key : String) (keys : List String) (queues : List TopicQueue)
      → All (λ k. Mem (queue_for k) queues) keys
      → is_step_initialized key keys ≡ true
      → Mem (queue_for key) queues
  unfolding is_step_initialized
  marked-Mem key [] queues h e = absurd (ground (arith, e))
  marked-Mem key (k ∷ keys) queues h e = elim (Bool-cases (k == key)) [
    | inl same ↦ subst (λ k. Mem (queue_for k) queues) ((eq_iff k key).0 same) h.0
    | inr other ↦
        marked-Mem key keys queues h.1
          (subst (λ b. (b || is_step_initialized key keys) ≡ true) other e)
  ]

  pub initialize_step-Progress :
      (cluster template step : String) (s : Initialization)
      → StandsFor cluster template step
      → Backed s
      → Progress s (initialize_step fails cluster template step s)
        × ((initialize_step fails cluster template step s).0 ≡ true
            → HasQueue cluster template step (initialize_step fails cluster template step s).1)
  unfolding initialize_step
  initialize_step-Progress cluster template step s key h =
      elim (Bool-cases (is_step_initialized (step_key cluster template step) s.initialized_steps)) [
        | inl e ↦ rw e (
          record { backed = h; grows = λ q m. m; excused = λ f. absurd (ground (arith, f)) },
          λ _.
              subst (λ q. Mem q s.queues) key
                (marked-Mem (step_key cluster template step) s.initialized_steps s.queues h e),
        )
        | inr e ↦ rw e (elim (Bool-cases (fails s.calls)) [
          | inl f ↦ rw f (refused s s.calls f h, λ t. absurd (ground (arith, t)))
          | inr f ↦ rw f (
            record {
              backed = (
                subst (λ q. Mem q (executor_queue cluster template step ∷ s.queues)) (sym key)
                    mem-cons_self,
                All-Mem s.initialized_steps (λ k m. mem-cons_of_mem _ m) h,
              );
              grows = λ q m. mem-cons_of_mem _ m;
              excused = λ t. absurd (ground (arith, t));
            },
            λ _. mem-cons_self,
          )
        ])
      ]

  -- The loops, whatever their bodies are to provide.
  module _ {A : Type 0} (P : A → Type 0) (R : A → Initialization → Type 0)
      (body : A → Initialization → Bool × Initialization)
      (kept : (x : A) (s t : Initialization)
        → ((q : TopicQueue) → Mem q s.queues → Mem q t.queues)
        → R x s
        → R x t)
      (step : (x : A) (s : Initialization)
        → P x
        → Backed s
        → Progress s (body x s) × ((body x s).0 ≡ true → R x (body x s).1)) where
    and_then-Progress :
        (x : A) (xs : List A) (s : Initialization) (r : Bool × Initialization)
        → Progress s r × (r.0 ≡ true → R x r.1)
        → ((t : Initialization)
            → Backed t
            → Progress t (each body xs t)
              × ((each body xs t).0 ≡ true → All (λ x. R x (each body xs t).1) xs))
        → Progress s (and_then r (each body xs))
          × ((and_then r (each body xs)).0 ≡ true
              → All (λ y. R y (and_then r (each body xs)).1) (x ∷ xs))
    and_then-Progress x xs s (true, t) h next =
        let (p, provided) = next t h.0.backed in
        (
          record {
            backed = p.backed;
            grows = λ q m. p.grows q (h.0.grows q m);
            excused = p.excused;
          },
          λ e. (kept x t (each body xs t).1 p.grows (h.1 refl), provided e),
        )
    and_then-Progress x xs s (false, t) h next = (h.0, λ e. absurd (ground (arith, e)))

    pub each-Progress :
        (xs : List A) (s : Initialization)
        → All P xs
        → Backed s
        → Progress s (each body xs s)
          × ((each body xs s).0 ≡ true → All (λ x. R x (each body xs s).1) xs)
    unfolding each
    each-Progress [] s ps h = (
      record { backed = h; grows = λ q m. m; excused = λ f. absurd (ground (arith, f)) },
      λ e. tt,
    )
    each-Progress (x ∷ xs) s ps h =
        and_then-Progress x xs s (body x s) (step x s ps.0 h) (λ t k. each-Progress xs t ps.1 k)
