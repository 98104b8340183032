-- ===== src/Coordinator/Rules/Loops.antt =====
-- Rules for the loops of the handlers over other steps of the saga, for UpdateSagaState, and for
-- the clock and the random source.
use mathlib.Core.List.{append_assoc}
use trax.Prelude.{
  ℕ, String, ◌≡◌, refl, sym, subst, inl, inr, Bool-cases, Option, List, [], ◌∷◌, ◌++◌, map,
}
use trax.State.{SagaState, SagaStepState, execution_done, compensation_pending, step_is}
use trax.Model.{SagaStepInstance}
use trax.Store.{
  Tables, World, M, pure, gets, modify, attempt, time_now, secure_random_string, ◌>>=◌,
}
use trax.Store.Rows.{with_state}
use trax.Store.Calls.{update_saga_state}
use trax.Store.Outcome.{Outcome, Failed, tick, then-Outcome}
use trax.Coordinator.Transit.{transit_each}
use trax.Coordinator.Forward.{prepare_compensation}
use trax.Coordinator.Rules.Transitions.{saga_state_set}
use trax.Coordinator.Rules.Zipper.{Chain-set_saga_state}
use trax.Coordinator.Rules.Focus.{Focus, step_rule}
use trax.Coordinator.Soundness.Shapes.{Are}
use trax.Coordinator.Soundness.Held.{step_is-eq_to}

module _ {κ} {B : Type κ} (R : B → World → Type 0) (F : World → Type 0) where
  pub clock_rule :
      (k : ℕ → M B) (w : World)
      → Outcome R F (k (w.env.clock w.calls) (tick w))
      → Outcome R F ((time_now >>= k) w)
  unfolding time_now ◌>>=◌
  clock_rule k w h = h

  pub random_rule :
      (k : String → M B) (w : World)
      → Outcome R F (k (w.env.random w.calls) (tick w))
      → Outcome R F ((secure_random_string >>= k) w)
  unfolding secure_random_string ◌>>=◌
  random_rule k w h = h

module _ {κ} {B : Type κ} (g : String) (saved : Option Tables) (state : SagaState)
    (R : B → World → Type 0) (F : World → Type 0)
    (failed : (v : World) → v.saved ≡ saved → Failed v → F v) (here : SagaStepInstance) where
  -- UpdateSagaState of the saga that is held.
  pub state_rule :
      (w : World) (target : SagaState) (steps : List SagaStepInstance) (k : Unit {0} → M B)
      → Focus g saved state w here steps
      → ((v : World) → Focus g saved target v here steps → Outcome R F (k tt v))
      → Outcome R F ((update_saga_state target >>= k) w)
  unfolding update_saga_state ◌>>=◌ attempt gets modify
  state_rule w target steps k f h = elim (Bool-cases (w.env.fails w.calls)) [
    | inl a ↦ rw a (failed (tick w) f.saved_is (w.calls, a))
    | inr a ↦ rw a (
        h _ (record {
          saved_is = f.saved_is;
          saga_held = f.saga_held;
          step_held = f.step_held;
          chain = Chain-set_saga_state g w.tables w.saga target steps f.chain;
          row = saga_state_set g w.saga target state w.tables f.saga_held f.row;
          state_held = refl;
        }))
  ]

module _ (g : String) (saved : Option Tables) (state : SagaState) (R : Unit {0} → World → Type 0)
    (F : World → Type 0) (failed : (v : World) → v.saved ≡ saved → Failed v → F v)
    (here : SagaStepInstance) where
  -- The loop over steps that stand next to one another.
  pub each_rule :
      (target : SagaStepState) (before xs after : List SagaStepInstance) (w : World)
      → Focus g saved state w here (before ++ (xs ++ after))
      → ((v : World)
          → Focus g saved state v here (before ++ (map (with_state target) xs ++ after))
          → R tt v)
      → Outcome R F (transit_each xs target w)
  unfolding transit_each pure
  each_rule target before [] after w f h = h w f
  each_rule target before (s ∷ xs) after w f h =
      step_rule g saved state R F failed w here target before s (xs ++ after) _ f (λ v f.
        each_rule target (before ++ with_state target s ∷ []) xs after v
          (subst (Focus g saved state v here)
            (sym (append_assoc before (with_state target s ∷ []) (xs ++ after))) f)
          (λ u f. h u (
            subst (Focus g saved state u here)
              (append_assoc before (with_state target s ∷ []) (map (with_state target) xs ++ after))
              f)))

  -- The loop that sets the first steps, all of them done, to COMPENSATION_PENDING.
  pub prepare_rule :
      (before xs after : List SagaStepInstance) (w : World)
      → Are execution_done xs
      → Focus g saved state w here (before ++ (xs ++ after))
      → ((v : World)
          → Focus g saved state v here
              (before ++ (map (with_state compensation_pending) xs ++ after))
          → R tt v)
      → Outcome R F (prepare_compensation xs w)
  unfolding prepare_compensation pure
  prepare_rule before [] after w d f h = h w f
  prepare_rule before (s ∷ xs) after w d f h =
      then-Outcome R F (step_is s.state execution_done) _ _ w (step_is-eq_to s execution_done d.0) (
        step_rule g saved state R F failed w here compensation_pending before s (xs ++ after) _ f
          (λ v f.
            prepare_rule (before ++ s' ∷ []) xs after v d.1
              (subst (Focus g saved state v here)
                (sym (append_assoc before (s' ∷ []) (xs ++ after))) f)
              (λ u f. h u (
                subst (Focus g saved state u here)
                  (append_assoc before (s' ∷ [])
                    (map (with_state compensation_pending) xs ++ after))
                  f))))
    where
      s' : SagaStepInstance
      s' = with_state compensation_pending s
