-- ===== src/Coordinator/Process/Rounds.antt =====
-- The loop of rounds of processSagaStep, in an environment in which no call fails.
use trax.Prelude.{ℕ, suc, ◌≤◌, ◌≡◌, sym, subst, arith, Bool, true, false}
use trax.State.{SagaStepState}
use trax.Store.{World, Environment, Exit, ok, stop, invalidate, panicked, hangs, M}
use trax.Store.Outcome.{Outcome, Failed, bind-Outcome, gets-Outcome}
use trax.Coordinator.Process.{process_step_in, process_saga_step, follow_up}

-- No call fails, and the clock does not go back.
pub record Reliable (env : Environment) : Type 0 where
  pub answers : (n : ℕ) → env.fails n ≡ false
  pub steady : (m n : ℕ) → m ≤ n → env.clock m ≤ env.clock n

pub no_failure : (w v : World) → Reliable w.env → v.env ≡ w.env → Failed v → ⊥
no_failure w v r same (n, e) =
    let failing = subst (λ env. env.fails n ≡ true) same e in ground (arith, failing, r.answers n)

-- Nothing else than the wanted end is possible.
abbrev pub Surely {ℓ} : {A : Type ℓ} → (A → World → Type 0) → M A → World → Type 0
Surely R m w = Outcome R (λ _. ⊥) (m w)

pub surely {ℓ} :
    {A : Type ℓ} (P : World → Type 0) (R : A → World → Type 0) (F : World → Type 0) (m : M A)
    (w : World)
    → P (m w).1
    → ((v : World) → P v → F v → ⊥)
    → Outcome R F (m w)
    → Surely (λ a v. R a v × P v) m w
surely {A = A} P R F m w p never h = ended (m w).0 (m w).1 p h
  where
    ended :
        (e : Exit A) (v : World)
        → P v
        → Outcome R F (e, v)
        → Outcome (λ a v. R a v × P v) (λ _. ⊥) (e, v)
    ended (ok a) v p h = (h, p)
    ended stop v p h = absurd (never v p h)
    ended invalidate v p h = h
    ended panicked v p h = h
    ended hangs v p h = h

module _ (F : World → Type 0) where
  -- A round is the case of the state of the step that is held.
  pub round_rule :
      (R : Bool → World → Type 0) (state : SagaStepState) (w : World)
      → w.step.state ≡ state
      → Outcome R F (process_step_in state w)
      → Outcome R F (process_saga_step w)
  unfolding process_saga_step
  round_rule R state w e h =
      gets-Outcome R F (λ w. w.step) _ w (subst (λ s. Outcome R F (process_step_in s w)) (sym e) h)

  -- A round that asks for another.
  pub next_round :
      (Q : World → Type 0) (R : Unit {0} → World → Type 0) (rounds : ℕ) (w : World)
      → Outcome (λ again v. Q v × (again ≡ true)) F (process_saga_step w)
      → ((v : World) → Q v → Outcome R F (follow_up rounds v))
      → Outcome R F (follow_up (suc rounds) w)
  unfolding follow_up
  next_round Q R rounds w h k =
      bind-Outcome (λ again v. Q v × (again ≡ true)) R F process_saga_step _ w h
        (λ again v q. rw q.1 (k v q.0))

  -- A round that asks for no other is the last.
  pub last_round :
      (Q : World → Type 0) (rounds : ℕ) (w : World)
      → Outcome (λ again v. Q v × (again ≡ false)) F (process_saga_step w)
      → Outcome (λ _ v. Q v) F (follow_up (suc rounds) w)
  unfolding follow_up
  last_round Q rounds w h =
      bind-Outcome (λ again v. Q v × (again ≡ false)) (λ _ v. Q v) F process_saga_step _ w h
        (λ again v q. rw q.1 q.0)
