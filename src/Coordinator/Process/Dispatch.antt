-- ===== src/Coordinator/Process/Dispatch.antt =====
-- A candidate that is polled: it is started, and its request goes out in the next round.
use trax.Prelude.{
  suc, String, ◌≡◌, refl, sym, ap, subst, ◌∙◌, arith, true, false, none, List, ◌∷◌, ◌++◌, ◌≤◌,
}
use trax.State.{running, execution_candidate, execution_running}
use trax.Model.{SagaStepInstance, SagaStepExecutionLog}
use trax.Store.{StepRequest, World}
use trax.Store.Outcome.{weaken-Outcome, tick}
use trax.Store.Quiet.{After, After-lineage}
use trax.Coordinator.Forward.{new_log, process_execution_candidate}
use trax.Coordinator.Running.{step_request, to_send, progress, process_execution_running}
use trax.Coordinator.Running.Timing.{progress-new_log}
use trax.Coordinator.Quiet.Handlers.{process_execution_candidate-Quiet}
use trax.Coordinator.Rules.Focus.{Focus}
use trax.Coordinator.Soundness.Shapes.{LastIs, Forward, ForwardHere}
use trax.Coordinator.Soundness.Held.{Becomes}
use trax.Coordinator.Soundness.Starting.{started}
use trax.Coordinator.Soundness.Candidate.{
  prepared, started-Forward, process_execution_candidate-Started,
}
use trax.Coordinator.Soundness.Send.{Later, sent_step, Sent}
use trax.Coordinator.Soundness.Request.{HasInput, dispatched-LastIs, process_execution_running-Sent}
use trax.Coordinator.Process.{follow_up, process_step_in}
use trax.Coordinator.Process.Rounds.{
  Reliable, Surely, surely, no_failure, round_rule, next_round, last_round,
}

-- The step of a saga that a world `w` has come to waits in the world `v` for its executor, which
-- was sent one request. The rows stand in a forward picture.
pub record Dispatched (g : String) (before : List SagaStepInstance) (here : SagaStepInstance)
    (after : List SagaStepInstance) (w v : World) : Type 0 where
  pub row : SagaStepInstance
  pub same_id : row.instance_id ≡ here.instance_id
  pub runs : row.state ≡ execution_running
  pub logged : LastIs false row.execution_history
  pub rows : Becomes g running (before ++ row ∷ after) v.tables
  pub closed : v.saved ≡ none
  pub request : StepRequest
  pub asked : request.saga_step_instance_id ≡ here.instance_id
  pub executes : request.is_compensation ≡ false
  pub published : v.published ≡ request ∷ w.published
  pub later : Later w v

module _ (g : String) (before : List SagaStepInstance) (here : SagaStepInstance)
    (after : List SagaStepInstance) (w : World) (reliable : Reliable w.env)
    (focus : Focus g none running w here (before ++ here ∷ after)) (f : Forward before here after)
    (candidate : here.state ≡ execution_candidate) where
  new_row : SagaStepInstance
  new_row = started (prepared g before here after w) here

  Holds : World → Type 0
  Holds v =
      Focus g none running v new_row (before ++ new_row ∷ after)
      × After (record w { calls = suc (suc (suc w.calls)) }) v

  -- The first round.
  round_starts : Surely (λ again v. Holds v × (again ≡ true)) process_execution_candidate w
  unfolding Holds new_row
  round_starts =
      weaken-Outcome _ _ _ process_execution_candidate w
        (surely (After w) _ _ process_execution_candidate w
          ((process_execution_candidate-Quiet).at w)
          (λ v a s. no_failure w v reliable a.same_env s.1)
          (process_execution_candidate-Started g before here after w focus f
            (subst (ForwardHere here) candidate f.active)))
        (λ again v h. ((h.0.0, h.0.2), h.0.1))

  -- The second round.
  round_sends :
      (v : World)
      → Holds v
      → Surely
          (λ again u. Dispatched g before here after w u × (again ≡ false))
          process_execution_running
          v
  unfolding Holds new_row new_log step_request
  round_sends v (held, a) =
      weaken-Outcome _ _ _ process_execution_running v
        (surely (λ _. Unit {0}) _ _ process_execution_running v tt
          (λ u _ s. no_failure w v reliable a.same_env s.1)
          (process_execution_running-Sent g before new_row after v log held
            (started-Forward g before here after w f) refl refl due))
        (λ again u h. (dispatched u h.0.0, h.0.1))
    where
      log : SagaStepExecutionLog
      log = new_log (w.env.clock (suc (suc w.calls))) false

      due : progress (v.env.clock v.calls) log ≡ to_send
      due = progress-new_log (w.env.clock (suc (suc w.calls))) (v.env.clock v.calls) false (
          subst (λ env. w.env.clock (suc (suc w.calls)) ≤ env.clock v.calls) (sym a.same_env)
            (reliable.steady (suc (suc w.calls)) v.calls (omega (arith, a.no_earlier))))

      dispatched :
          (u : World)
          → Sent g running
              (before ++ sent_step (tick v) new_row ∷ after)
              false
              (HasInput g before new_row after v)
              (tick v)
              u
          → Dispatched g before here after w u
      dispatched u (closed, (m, is, message), rows, later) = record {
        row = sent_step (tick v) new_row;
        same_id = refl;
        runs = refl;
        logged = dispatched-LastIs false _ _ new_row (log, refl, refl);
        rows = rows;
        closed = closed;
        request = step_request (tick v) false m;
        asked = ap (λ s. s.instance_id) held.step_held;
        executes = refl;
        published = message ∙ ap (λ p. step_request (tick v) false m ∷ p) a.same_published;
        later = (
          later.0 ∙ a.same_env,
          omega (arith, later.1, a.no_earlier),
          later.2 ∙ After-lineage _ v a focus.saved_is,
        );
      }

  pub rounds-Dispatched : Surely (λ _ v. Dispatched g before here after w v) (follow_up 11) w
  unfolding process_step_in Holds new_row
  rounds-Dispatched =
      next_round (λ _. ⊥) Holds _ 10 w
        (round_rule (λ _. ⊥) _ execution_candidate w (ap (λ s. s.state) focus.step_held ∙ candidate)
          round_starts)
        (λ v holds.
          last_round (λ _. ⊥) _ 9 v
            (round_rule (λ _. ⊥) _ execution_running v (ap (λ s. s.state) holds.0.step_held)
              (round_sends v holds)))
