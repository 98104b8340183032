-- ===== src/Coordinator/Soundness/Forward.antt =====
-- The case EXECUTION_SUCCEEDED of processSagaStep keeps a saga sound.
use trax.Prelude.{
  String, ◌≡◌, refl, sym, subst, inl, false, none, some, List, [], ◌∷◌, ◌++◌, All, all, All-append,
  ap,
}
use trax.State.{
  SagaState, step_is, execution_pending, execution_candidate, execution_done, running, committed,
}
use trax.Model.{SagaStepInstance}
use trax.Store.{Tables, World, pure}
use trax.Store.Rows.{with_state}
use trax.Store.Outcome.{Outcome, bind-Outcome, last-Outcome, then-Outcome, gets-Outcome}
use trax.Coordinator.Transit.{transit_saga_to_state}
use trax.Coordinator.Forward.{advance, process_execution_succeeded}
use trax.Coordinator.Rules.Chain.{Chain}
use trax.Coordinator.Rules.Focus.{Focus, position_rule, current_rule, step_rule, saga_rule}
use trax.Coordinator.Rules.Transaction.{opened}
use trax.Coordinator.Rules.Zipper.{move_on}
use trax.Coordinator.Soundness.Shapes.{Are, Waiting, Forward, forward, finished, Sound}
use trax.Coordinator.Soundness.Held.{
  all-Are, step_is-eq_to, Becomes, Inside, Made, Stopped, Saved, transaction_rule,
}

-- The steps once the step `here` is done.
abbrev pub advanced :
    List SagaStepInstance → SagaStepInstance → List SagaStepInstance → List SagaStepInstance
advanced before here [] = before ++ with_state execution_done here ∷ []
advanced before here (next ∷ after) =
    before ++ with_state execution_done here ∷ with_state execution_candidate next ∷ after

abbrev pub state_after : List SagaStepInstance → SagaState
state_after [] = committed
state_after (next ∷ after) = running

module _ (g : String) (t : Tables) (before : List SagaStepInstance) (here : SagaStepInstance)
    (d : Are execution_done before) where
  abbrev R : List SagaStepInstance → Unit {0} → World → Type 0
  R after _ v = Inside t (Becomes g (state_after after) (advanced before here after)) v

  done : SagaStepInstance
  done = with_state execution_done here

  -- The step is done: the next becomes a candidate, or the saga is committed.
  advance-Outcome :
      (after : List SagaStepInstance) (w : World)
      → Focus g (some t) running w done (before ++ done ∷ after)
      → All Waiting after
      → Outcome
          (R after)
          (Saved t)
          (advance (record { before = before; here = here; after = after }) w)
  unfolding advance pure done
  advance-Outcome [] w f wait =
      then-Outcome (R []) (Saved t) (all (λ s. step_is s.state execution_done) before) _ _ w
        (all-Are execution_done before d)
        (gets-Outcome (R []) (Saved t) (λ w. w.step) _ w
          (then-Outcome (R []) (Saved t) (step_is w.step.state execution_done) _ _ w
            (step_is-eq_to w.step execution_done (ap (λ s. s.state) f.step_held))
            (last-Outcome (R []) (Saved t) (transit_saga_to_state committed) w (
              saga_rule g (some t) running (R []) (Saved t) (λ v s e. (s, e)) w done committed
                (before ++ done ∷ []) _ f
                (λ v f. (
                  f.saved_is,
                  (finished before done f.chain (inl f.row) d refl, f.chain, f.row),
                ))))))
  advance-Outcome (next ∷ after) w f wait =
      then-Outcome (R (next ∷ after)) (Saved t) (step_is next.state execution_pending) _ _ w
        (step_is-eq_to next execution_pending wait.0.0)
        (step_rule g (some t) running (R (next ∷ after)) (Saved t) (λ v s e. (s, e)) w done
          execution_candidate (before ++ done ∷ []) next after _
          (subst (Focus g (some t) running w done) (sym (move_on before done next after)) f)
          (λ v f. (f.saved_is, (moved v f, chain_of v f, f.row))))
    where
      next' : SagaStepInstance
      next' = with_state execution_candidate next

      moved :
          (v : World)
          → Focus g (some t) running v done ((before ++ done ∷ []) ++ next' ∷ after)
          → Sound g v.tables
      moved v f = forward (before ++ done ∷ []) next' after f.chain f.row (record {
        done = All-append (λ s. s.state ≡ execution_done) before (done ∷ []) d (refl, tt);
        active = wait.0.1;
        waiting = wait.1;
      })

      chain_of :
          (v : World)
          → Focus g (some t) running v done ((before ++ done ∷ []) ++ next' ∷ after)
          → Chain g v.tables (before ++ done ∷ next' ∷ after)
      chain_of v f = subst (Chain g v.tables) (move_on before done next' after) f.chain

module _ (g : String) (w : World) (before : List SagaStepInstance) (here : SagaStepInstance)
    (after : List SagaStepInstance) where
  pub process_execution_succeeded-Made :
      Focus g none running w here (before ++ here ∷ after)
      → Forward before here after
      → Outcome
          (λ again v.
            Made (Becomes g (state_after after) (advanced before here after)) v × (again ≡ false))
          (Stopped w.tables (Becomes g (state_after after) (advanced before here after)))
          (process_execution_succeeded w)
  unfolding process_execution_succeeded pure done
  process_execution_succeeded-Made focus f =
      bind-Outcome (λ _ v. Made Q v) (λ again v. Made Q v × (again ≡ false)) (Stopped w.tables Q) _
        _ w
        (transaction_rule g running w here (before ++ here ∷ after) Q _ focus (λ focus.
          position_rule g (some w.tables) running R' (Saved w.tables) (λ v s e. (s, e)) (opened w)
            here before after _ _ focus
            (λ focus.
              current_rule g (some w.tables) running R' (Saved w.tables) (λ v s e. (s, e)) _ here
                execution_done before here after _ refl focus
                (λ v focus.
                  advance-Outcome g w.tables before here f.done after v focus f.waiting))))
        (λ _ v made. (made, refl))
    where
      Q : Tables → Type 0
      Q = Becomes g (state_after after) (advanced before here after)

      R' : Unit {0} → World → Type 0
      R' _ v = Inside w.tables Q v
