-- ===== src/Coordinator/Soundness/Compensating.antt =====
-- The transaction that starts a compensation.
use trax.Prelude.{String, ◌≡◌, refl, ap, subst, some, List, [], ◌∷◌, ◌++◌}
use trax.State.{compensation_running, running}
use trax.Model.{SagaStepInstance, SagaStepExecutionLog}
use trax.Store.{Tables, World, M, pure, gets, modify, ◌>>=◌, ◌>>◌}
use trax.Store.Rows.{with_state}
use trax.Store.Calls.{update_saga_step_execution_history}
use trax.Store.Outcome.{Outcome, last-Outcome, gets-Outcome, modify-Outcome}
use trax.Store.Quiet.{Quiet}
use trax.Coordinator.Quiet.{transition_rules}
use trax.Coordinator.Transit.{transit_current_step}
use trax.Coordinator.Rules.Focus.{Focus, with_history, current_rule, history_rule}
use trax.Coordinator.Soundness.Held.{Saved}

-- The body of the transaction that starts the compensation, with the new history.
abbrev pub compensate_with : List SagaStepExecutionLog → M (Unit {0})
compensate_with history = do
  transit_current_step compensation_running
  modify (λ v. record v { step = record v.step { execution_history = history } })
  fresh ← gets (λ w. w.step)
  update_saga_step_execution_history fresh

pub compensate_with-Quiet : (history : List SagaStepExecutionLog) → Quiet (compensate_with history)
compensate_with-Quiet history = search transition_rules depth 12

-- The step with a log for its compensation.
abbrev pub compensating : SagaStepExecutionLog → SagaStepInstance → SagaStepInstance
compensating log here = record here {
  state = compensation_running;
  execution_history = here.execution_history ++ log ∷ [];
}

module _ (g : String) (t : Tables) (before : List SagaStepInstance) (here : SagaStepInstance)
    (after : List SagaStepInstance) (log : SagaStepExecutionLog) where
  abbrev pub R : Unit {0} → World → Type 0
  R _ v =
      Focus g (some t) running v (compensating log here) (before ++ compensating log here ∷ after)

  pub compensate_body :
      (w : World)
      → Focus g (some t) running w here (before ++ here ∷ after)
      → Outcome R (Saved t) (compensate_with (here.execution_history ++ log ∷ []) w)
  unfolding pure
  compensate_body w f =
      current_rule g (some t) running R (Saved t) (λ v s e. (s, e)) w here compensation_running
        before here after _ refl f
        (λ v f. modify-Outcome R (Saved t) _ _ v (
          gets-Outcome R (Saved t) (λ w. w.step) _ _
            (last-Outcome R (Saved t) _ _ (
              history_rule g (some t) running R (Saved t) (λ v s e. (s, e)) _ (change v.step)
                (change v.step) before (with_state compensation_running here) after pure
                (ap (λ s. s.instance_id) f.step_held) (logged f)
                (λ u e. becomes v.step u f.step_held e)))))
    where
      change : SagaStepInstance → SagaStepInstance
      change s = record s { execution_history = here.execution_history ++ log ∷ [] }

      logged :
          {v : World}
          → Focus g
              (some t)
              running
              v
              (with_state compensation_running here)
              (before ++ with_state compensation_running here ∷ after)
          → Focus g
              (some t)
              running
              (record v { step = change v.step })
              (change v.step)
              (before ++ with_state compensation_running here ∷ after)
      logged f = record {
        saved_is = f.saved_is;
        saga_held = f.saga_held;
        step_held = refl;
        chain = f.chain;
        row = f.row;
        state_held = f.state_held;
      }

      same_row :
          (s : SagaStepInstance)
          → s ≡ with_state compensation_running here
          → with_history (change s) (with_state compensation_running here) ≡ compensating log here
      same_row s e = ap (λ s. with_history (change s) (with_state compensation_running here)) e

      becomes :
          (s : SagaStepInstance) (u : World)
          → s ≡ with_state compensation_running here
          → Focus g
              (some t)
              running
              u
              (change s)
              (before ++ with_history (change s) (with_state compensation_running here) ∷ after)
          → Focus g
              (some t)
              running
              u
              (compensating log here)
              (before ++ compensating log here ∷ after)
      becomes s u same e =
          subst (λ r. Focus g (some t) running u r (before ++ compensating log here ∷ after))
            (ap change same)
            (subst (λ s'. Focus g (some t) running u (change s) (before ++ s' ∷ after))
              (same_row s same) e)
