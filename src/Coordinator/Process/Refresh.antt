-- ===== src/Coordinator/Process/Refresh.antt =====
-- The rule for taking the mutex and reading both instances.
use trax.Prelude.{suc, ℕ, String, ◌≡◌, inl, inr, Bool-cases, some, find?, ◌==◌}
use trax.Model.{SagaInstance, SagaStepInstance}
use trax.Store.{World, M, pure, modify, attempt, gets, ◌>>=◌}
use trax.Store.Rows.{saga_row, steps_of_saga}
use trax.Store.Calls.{get_saga_instance, list_saga_step_instances}
use trax.Store.Outcome.{Outcome, Failed}
use trax.Coordinator.Process.{refresh}

-- The world in which the handler holds both instances.
abbrev pub held_world : World → SagaInstance → SagaStepInstance → World
held_world w saga step = record w { calls = suc (suc (suc w.calls)); saga = saga; step = step }

module _ {κ} {B : Type κ} (R : B → World → Type 0) (F : World → Type 0) where
  pub refresh_rule :
      (saga_id step_id : String) (k : Unit {0} → M B) (w : World) (saga : SagaInstance)
      (step : SagaStepInstance)
      → saga_row saga_id w.tables ≡ some saga
      → find? (λ s. s.instance_id == step_id) (steps_of_saga saga_id w.tables) ≡ some step
      → ((n : ℕ) (s : SagaInstance) → Failed w → F (record w { calls = n; saga = s }))
      → Outcome R F (k tt (held_world w saga step))
      → Outcome R F ((refresh saga_id step_id >>= k) w)
  unfolding refresh get_saga_instance list_saga_step_instances pure ◌>>=◌ modify attempt gets
  refresh_rule saga_id step_id k w saga step row listed failed h =
      elim (Bool-cases (w.env.fails w.calls)) [
        | inl a ↦ rw a (failed (suc w.calls) w.saga (w.calls, a))
        | inr a ↦ rw a (elim (Bool-cases (w.env.fails (suc w.calls))) [
          | inl b ↦ rw b (failed (suc (suc w.calls)) w.saga (suc w.calls, b))
          | inr b ↦ rw b (
              rw row (elim (Bool-cases (w.env.fails (suc (suc w.calls)))) [
                | inl c ↦ rw c (failed (suc (suc (suc w.calls))) saga (suc (suc w.calls), c))
                | inr c ↦ rw c (rw listed h)
              ]))
        ])
      ]
