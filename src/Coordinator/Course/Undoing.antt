-- ===== src/Coordinator/Course/Undoing.antt =====
-- The stages of a step that fails, and of the compensation of a step, in an environment in which
-- no call fails.
use trax.Prelude.{
  String, inl, inr, ◌≡◌, refl, sym, ap, subst, ◌∙◌, arith, true, none, List, ◌∷◌, ◌++◌, map,
}
use trax.State.{
  running, execution_failed, execution_aborted, compensation_pending, compensation_candidate,
  compensation_running, compensation_succeeded, compensation_failed, compensation_done,
}
use trax.Model.{SagaStepInstance}
use trax.Store.{World, pure}
use trax.Store.Rows.{with_state}
use trax.Store.Outcome.{weaken-Outcome}
use trax.Store.Quiet.{lineage, After, After-trans, After-lineage}
use trax.Coordinator.Forward.{process_execution_failed}
use trax.Coordinator.Backward.{process_compensation_succeeded}
use trax.Coordinator.Process.{
  follow_up, poll_step, process_step_in, process_step_with_mutex, is_skipped_by_polling,
  is_skipped_with_mutex,
}
use trax.Coordinator.Process.Rounds.{
  Reliable, Surely, surely, no_failure, round_rule, next_round, last_round,
}
use trax.Coordinator.Process.UndoDispatch.{Childless, UndoDispatched, rounds-UndoDispatched}
use trax.Coordinator.Process.Visit.{
  Going, Going-Reached, Returning, Returning-Reached, poll_rule, with_mutex_rule,
}
use trax.Coordinator.Quiet.Handlers.{
  process_execution_failed-Quiet, process_compensation_succeeded-Quiet,
}
use trax.Coordinator.Quiet.Rounds.{process_result-Quiet}
use trax.Coordinator.Result.{SagaStepExecutionResultPayload, process_saga_step_execution_result}
use trax.Coordinator.Result.Kept.{Answers, row_with_result, compensation_result-Made}
use trax.Coordinator.Rules.Focus.{Focus}
use trax.Coordinator.Soundness.Held.{Becomes, Made}
use trax.Coordinator.Soundness.Backward.{Compensated, process_compensation_succeeded-Undone}
use trax.Coordinator.Soundness.Turn.{turned, turned-Backward, process_execution_failed-Turned}

UndoDispatched-After :
    (g : String) (before : List SagaStepInstance) (here : SagaStepInstance)
    (after : List SagaStepInstance) (w v u : World)
    → w.saved ≡ none
    → After w v
    → UndoDispatched g before here after v u
    → UndoDispatched g before here after w u
UndoDispatched-After g before here after w v u closed a d = record {
  row = d.row;
  same_id = d.same_id;
  runs = d.runs;
  logged = d.logged;
  rows = d.rows;
  closed = d.closed;
  request = d.request;
  asked = d.asked;
  undoes = d.undoes;
  published = d.published ∙ ap (λ p. d.request ∷ p) a.same_published;
  later = (
    d.later.0 ∙ a.same_env,
    omega (arith, d.later.1, a.no_earlier),
    d.later.2 ∙ After-lineage w v a closed,
  );
}

module _ (g : String) (w : World) (before : List SagaStepInstance) (here : SagaStepInstance)
    (after : List SagaStepInstance) where
  -- A failure turns the saga back, and the compensation of the step is started.
  pub with_mutex-UndoDispatched :
      Going g w before here after
      → Childless g (lineage w.tables)
      → here.state ≡ execution_failed
      → Surely
          (λ _ v.
            UndoDispatched g
              (map (with_state compensation_pending) before)
              (with_state compensation_candidate here)
              (map (with_state execution_aborted) after)
              w
              v)
          (process_step_with_mutex g here.instance_id)
          w
  unfolding is_skipped_with_mutex process_step_in
  with_mutex-UndoDispatched going childless state =
      with_mutex_rule g w before here after (Going-Reached g w before here after going) _
        (ap is_skipped_with_mutex state)
        (λ v focus a.
          next_round (λ _. ⊥)
            (λ u.
              Focus g none running u (with_state compensation_candidate here)
                (turned before here after)
              × After v u)
            _ 10 v
            (round_rule (λ _. ⊥) _ execution_failed v (ap (λ s. s.state) focus.step_held ∙ state)
              (weaken-Outcome _ _ _ process_execution_failed v
                (surely (After v) _ _ process_execution_failed v
                  (process_execution_failed-Quiet.at v)
                  (λ u b s. no_failure w u going.reliable (b.same_env ∙ a.same_env) s.1)
                  (process_execution_failed-Turned g v before here after focus going.forward))
                (λ again u h. ((h.0.0, h.1), h.0.1))))
            (λ u (held, b).
              weaken-Outcome _ _ _ (follow_up 10) u
                (rounds-UndoDispatched g _ _ _ u
                  (subst Reliable (sym (b.same_env ∙ a.same_env)) going.reliable) held
                  (turned-Backward g v before here after going.forward)
                  (subst (Childless g)
                    (sym (After-lineage v u b focus.saved_is ∙ After-lineage w v a going.closed))
                    childless)
                  8 refl)
                (λ _ x d.
                  UndoDispatched-After g _ _ _ w u x going.closed (After-trans w v u a b) d)))

module _ (g : String) (w : World) (before : List SagaStepInstance) (here : SagaStepInstance)
    (after : List SagaStepInstance) (back : Returning g w before here after) where
  -- A candidate for compensation is started, and its request goes out.
  pub poll_step-UndoDispatched :
      here.state ≡ compensation_candidate
      → Surely (λ _ v. UndoDispatched g before here after w v) (poll_step g here.instance_id) w
  unfolding is_skipped_by_polling
  poll_step-UndoDispatched candidate =
      poll_rule g w before here after (Returning-Reached g w before here after back)
        (λ _ v. UndoDispatched g before here after w v) (ap is_skipped_by_polling candidate)
        (λ v focus a.
          weaken-Outcome _ _ _ (follow_up 11) v
            (rounds-UndoDispatched g before here after v
              (subst Reliable (sym a.same_env) back.reliable) focus back.backward
              (subst (Childless g) (sym (After-lineage w v a back.closed)) back.childless) 9
              candidate)
            (λ _ u d. UndoDispatched-After g before here after w v u back.closed a d))

  -- The answer that a compensation has succeeded is written down.
  pub undo-Recorded :
      (answer : SagaStepExecutionResultPayload)
      → here.state ≡ compensation_running
      → answer.saga_instance_id ≡ g
      → answer.saga_step_instance_id ≡ here.instance_id
      → Answers compensation_succeeded compensation_failed answer.status compensation_succeeded
      → Surely
          (λ _ v.
            Made
              (Becomes g running (
                before
                ++ row_with_result g w before here after answer compensation_succeeded true
                  ∷ after))
              v
            × After w v)
          (process_saga_step_execution_result answer)
          w
  undo-Recorded answer runs same_saga same_step answers =
      weaken-Outcome _ _ _ (process_saga_step_execution_result answer) w
        (surely (After w) _ _ (process_saga_step_execution_result answer) w
          ((process_result-Quiet answer).at w)
          (λ v a s. no_failure w v back.reliable a.same_env (elim s [ inl h ↦ h.1 | inr h ↦ h.1 ]))
          (compensation_result-Made g w before here after answer compensation_succeeded back.closed
            back.chain back.row back.backward runs same_saga same_step answers))
        (λ _ v h. (h.0.0, h.1))

  -- The goroutine goes on to the step before.
  pub with_mutex-Compensated :
      here.state ≡ compensation_succeeded
      → Surely
          (λ _ v. Made (Compensated g before here after) v × After w v)
          (process_step_with_mutex g here.instance_id)
          w
  unfolding is_skipped_with_mutex process_step_in pure
  with_mutex-Compensated state =
      with_mutex_rule g w before here after (Returning-Reached g w before here after back) _
        (ap is_skipped_with_mutex state)
        (λ v focus a.
          next_round (λ _. ⊥)
            (λ u.
              (Made (Compensated g before here after) u × After v u)
              × (u.step.state ≡ compensation_done))
            _ 10 v
            (round_rule (λ _. ⊥) _ compensation_succeeded v
              (ap (λ s. s.state) focus.step_held ∙ state)
              (weaken-Outcome _ _ _ process_compensation_succeeded v
                (surely (After v) _ _ process_compensation_succeeded v
                  (process_compensation_succeeded-Quiet.at v)
                  (λ u b s. no_failure w u back.reliable (b.same_env ∙ a.same_env) s.1)
                  (process_compensation_succeeded-Undone g v before here after focus back.backward))
                (λ again u h. (((h.0.0, h.1), h.0.2), h.0.1))))
            (λ u h.
              last_round (λ _. ⊥) _ 9 u
                (round_rule (λ _. ⊥) _ compensation_done u h.1
                  ((h.0.0, After-trans w v u a h.0.1), refl))))
