-- ===== src/Coordinator/Course/Stages.antt =====
-- The three stages of a step that succeeds, in an environment in which no call fails.
use trax.Prelude.{String, inl, inr, ◌≡◌, sym, ap, subst, ◌∙◌, arith, false, none, List, ◌∷◌, ◌++◌}
use trax.State.{
  running, execution_candidate, execution_running, execution_succeeded, execution_failed,
  SagaStepState,
}
use trax.Model.{SagaStepInstance}
use trax.Store.{World, StepRequest}
use trax.Store.Outcome.{weaken-Outcome}
use trax.Store.Quiet.{After, After-lineage}
use trax.Coordinator.Forward.{process_execution_succeeded}
use trax.Coordinator.Process.{
  follow_up, poll_step, process_step_in, process_step_with_mutex, is_skipped_by_polling,
  is_skipped_with_mutex,
}
use trax.Coordinator.Process.Rounds.{Reliable, Surely, surely, no_failure, round_rule, last_round}
use trax.Coordinator.Process.Dispatch.{Dispatched, rounds-Dispatched}
use trax.Coordinator.Process.Visit.{Going, Going-Reached, poll_rule, with_mutex_rule}
use trax.Coordinator.Quiet.Handlers.{process_execution_succeeded-Quiet}
use trax.Coordinator.Quiet.Rounds.{process_result-Quiet}
use trax.Coordinator.Result.{SagaStepExecutionResultPayload, process_saga_step_execution_result}
use trax.Coordinator.Result.Kept.{Answers, row_with_result, execution_result-Made}
use trax.Coordinator.Soundness.Held.{Becomes, Made}
use trax.Coordinator.Soundness.Forward.{advanced, state_after, process_execution_succeeded-Made}

Dispatched-After :
    (g : String) (before : List SagaStepInstance) (here : SagaStepInstance)
    (after : List SagaStepInstance) (w v u : World)
    → w.saved ≡ none
    → After w v
    → Dispatched g before here after v u
    → Dispatched g before here after w u
Dispatched-After g before here after w v u closed a d = record {
  row = d.row;
  same_id = d.same_id;
  runs = d.runs;
  logged = d.logged;
  rows = d.rows;
  closed = d.closed;
  request = d.request;
  asked = d.asked;
  executes = d.executes;
  published = d.published ∙ ap (λ p. d.request ∷ p) a.same_published;
  later = (
    d.later.0 ∙ a.same_env,
    omega (arith, d.later.1, a.no_earlier),
    d.later.2 ∙ After-lineage w v a closed,
  );
}

module _ (g : String) (w : World) (before : List SagaStepInstance) (here : SagaStepInstance)
    (after : List SagaStepInstance) (going : Going g w before here after) where
  -- A candidate is started, and its request goes out.
  pub poll_step-Dispatched :
      here.state ≡ execution_candidate
      → Surely (λ _ v. Dispatched g before here after w v) (poll_step g here.instance_id) w
  unfolding is_skipped_by_polling
  poll_step-Dispatched candidate =
      poll_rule g w before here after (Going-Reached g w before here after going)
        (λ _ v. Dispatched g before here after w v) (ap is_skipped_by_polling candidate)
        (λ v focus a.
          weaken-Outcome _ _ _ (follow_up 11) v
            (rounds-Dispatched g before here after v
              (subst Reliable (sym a.same_env) going.reliable) focus going.forward candidate)
            (λ _ u d. Dispatched-After g before here after w v u going.closed a d))

  -- An answer is written down.
  pub answer-Recorded :
      (answer : SagaStepExecutionResultPayload) (target : SagaStepState)
      → here.state ≡ execution_running
      → answer.saga_instance_id ≡ g
      → answer.saga_step_instance_id ≡ here.instance_id
      → Answers execution_succeeded execution_failed answer.status target
      → Surely
          (λ _ v.
            Made
              (Becomes g running
                (before ++ row_with_result g w before here after answer target false ∷ after))
              v
            × After w v)
          (process_saga_step_execution_result answer)
          w
  answer-Recorded answer target runs same_saga same_step answers =
      weaken-Outcome _ _ _ (process_saga_step_execution_result answer) w
        (surely (After w) _ _ (process_saga_step_execution_result answer) w
          ((process_result-Quiet answer).at w)
          (λ v a s. no_failure w v going.reliable a.same_env (elim s [ inl h ↦ h.1 | inr h ↦ h.1 ]))
          (execution_result-Made g w before here after answer target going.closed going.chain
            going.row going.forward runs same_saga same_step answers))
        (λ _ v h. (h.0.0, h.1))

  -- The goroutine goes on to the next step.
  pub with_mutex-Advanced :
      here.state ≡ execution_succeeded
      → Surely
          (λ _ v. Made (Becomes g (state_after after) (advanced before here after)) v × After w v)
          (process_step_with_mutex g here.instance_id)
          w
  unfolding is_skipped_with_mutex process_step_in
  with_mutex-Advanced succeeded =
      with_mutex_rule g w before here after (Going-Reached g w before here after going) _
        (ap is_skipped_with_mutex succeeded)
        (λ v focus a.
          last_round (λ _. ⊥) _ 10 v
            (round_rule (λ _. ⊥) _ execution_succeeded v
              (ap (λ s. s.state) focus.step_held ∙ succeeded)
              (weaken-Outcome _ _ _ process_execution_succeeded v
                (surely (After v) _ _ process_execution_succeeded v
                  (process_execution_succeeded-Quiet.at v)
                  (λ u b s. no_failure w u going.reliable (b.same_env ∙ a.same_env) s.1)
                  (process_execution_succeeded-Made g v before here after focus going.forward))
                (λ again u h. ((h.0.0, trax.Store.Quiet.After-trans w v u a h.1), h.0.1)))))
