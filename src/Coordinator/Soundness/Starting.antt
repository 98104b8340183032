-- ===== src/Coordinator/Soundness/Starting.antt =====
-- The transaction that starts an execution, and the tests before it.
use trax.Prelude.{
  String, ◌≡◌, refl, ap, subst, ◌∙◌, true, some, List, [], ◌∷◌, ◌++◌, All, Ends, empty, ends_in,
  get_last?-append, All-init,
}
use trax.State.{SagaStepState, execution_pending, execution_running, running}
use trax.Model.{SagaStepInstance}
use trax.Store.{Tables, World, M, pure, gets, ◌>>=◌, ◌>>◌}
use trax.Store.Rows.{with_state}
use trax.Store.Calls.{update_saga_step_execution_history}
use trax.Store.Outcome.{Outcome, last-Outcome, gets-Outcome}
use trax.Store.Quiet.{Quiet}
use trax.Coordinator.Quiet.{transition_rules}
use trax.Coordinator.Transit.{transit_current_step}
use trax.Coordinator.Forward.{previous_is, next_is}
use trax.Coordinator.Rules.Focus.{Focus, with_history, current_rule, history_rule}
use trax.Coordinator.Soundness.Shapes.{Are, Waiting}
use trax.Coordinator.Soundness.Held.{Saved, step_is-eq_to}

-- The tests of the neighbours pass.
pub previous-Are :
    (state : SagaStepState) (before : List SagaStepInstance) (here : SagaStepInstance)
    (after : List SagaStepInstance)
    → Ends before
    → Are state before
    → previous_is state (record { before = before; here = here; after = after }) ≡ true
previous-Are state _ here after empty h = refl
previous-Are state _ here after (ends_in xs x) h =
    rw (get_last?-append xs x) (step_is-eq_to x state (All-init (λ s. s.state ≡ state) xs x h).1)

pub next-Waiting :
    (before : List SagaStepInstance) (here : SagaStepInstance) (after : List SagaStepInstance)
    → All Waiting after
    → next_is execution_pending (record { before = before; here = here; after = after }) ≡ true
next-Waiting before here [] h = refl
next-Waiting before here (s ∷ after) h = step_is-eq_to s execution_pending h.0.0

-- The row of a step that was started with a copy of it.
abbrev pub started : SagaStepInstance → SagaStepInstance → SagaStepInstance
started step here = with_history step (with_state execution_running here)

-- The body of the transaction that starts the execution.
abbrev pub start_with_step : M (Unit {0})
start_with_step = do
  step ← gets (λ w. w.step)
  update_saga_step_execution_history step
  transit_current_step execution_running
  fresh ← gets (λ w. w.step)
  update_saga_step_execution_history fresh

pub start_with_step-Quiet : Quiet start_with_step
start_with_step-Quiet = search transition_rules depth 12

module _ (g : String) (before : List SagaStepInstance) (here : SagaStepInstance)
    (after : List SagaStepInstance) where
  -- The transaction that starts the execution, with the step that was prepared for it.
  pub start_body :
      (t : Tables) (w : World) (step : SagaStepInstance)
      → Focus g (some t) running w step (before ++ here ∷ after)
      → step.instance_id ≡ here.instance_id
      → Outcome
          (λ _ v.
            Focus g (some t) running v (started step here) (before ++ started step here ∷ after))
          (Saved t)
          (start_with_step w)
  unfolding pure
  start_body t w step f same =
      gets-Outcome R (Saved t) (λ w. w.step) _ w
        (history_rule g (some t) running R (Saved t) (λ v s e. (s, e)) w step w.step before here
          after _ (ap (λ s. s.instance_id) f.step_held ∙ same) f
          (λ v f'.
            current_rule g (some t) running R (Saved t) (λ v s e. (s, e)) v step execution_running
              before (with_history w.step here) after _ same f'
              (λ v f'.
                gets-Outcome R (Saved t) (λ w. w.step) _ v
                  (last-Outcome R (Saved t) (update_saga_step_execution_history v.step) v (
                    history_rule g (some t) running R (Saved t) (λ v s e. (s, e)) v running_step
                      v.step before running_step after _ (ap (λ s. s.instance_id) f'.step_held) f'
                      (λ u e. becomes v.step u f'.step_held e))))))
    where
      R : Unit {0} → World → Type 0
      R _ v = Focus g (some t) running v (started step here) (before ++ started step here ∷ after)

      running_step : SagaStepInstance
      running_step = with_state execution_running (with_history w.step here)

      -- What the last update writes is what was prepared.
      same_row :
          (s : SagaStepInstance)
          → s ≡ running_step
          → with_history s running_step ≡ started step here
      same_row s e =
          ap (λ s. with_history s running_step) e
          ∙ ap (λ s. with_state execution_running (with_history s here)) f.step_held

      becomes :
          (s : SagaStepInstance) (u : World)
          → s ≡ running_step
          → Focus g (some t) running u running_step (before ++ with_history s running_step ∷ after)
          → Focus g (some t) running u (started step here) (before ++ started step here ∷ after)
      becomes s u same e =
          subst (λ r. Focus g (some t) running u r (before ++ started step here ∷ after))
            (ap (λ s. with_state execution_running (with_history s here)) f.step_held)
            (subst (λ s. Focus g (some t) running u running_step (before ++ s ∷ after))
              (same_row s same) e)
