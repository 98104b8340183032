-- ===== src/Coordinator/Process/UndoDispatch.antt =====
-- A step that is to be compensated: its compensation is started, and its request goes out in the
-- next round.
use trax.Prelude.{
  suc, ℕ, String, ◌≡◌, ◌≤◌, refl, sym, ap, subst, ◌∙◌, arith, true, false, none, List, [], ◌∷◌,
  ◌++◌, keep, All, ◌==◌, get_last?-append,
}
use trax.State.{running, compensation_candidate, compensation_running}
use trax.Model.{SagaInstance, SagaStepInstance, SagaStepExecutionLog}
use trax.Store.{Tables, StepRequest, World}
use trax.Store.Rows.{child_sagas}
use trax.Store.Outcome.{weaken-Outcome, tick}
use trax.Store.Quiet.{lineage, After, After-lineage}
use trax.Coordinator.Forward.{new_log}
use trax.Coordinator.Backward.{process_compensation_candidate}
use trax.Coordinator.Running.{step_request, to_send, progress, process_compensation_running}
use trax.Coordinator.Running.Timing.{progress-new_log}
use trax.Coordinator.Quiet.Handlers.{process_compensation_candidate-Quiet}
use trax.Coordinator.Rules.Focus.{Focus}
use trax.Coordinator.Soundness.Shapes.{LastIs, Backward}
use trax.Coordinator.Soundness.Held.{Becomes}
use trax.Coordinator.Soundness.Children.{Settled}
use trax.Coordinator.Soundness.Compensating.{compensating}
use trax.Coordinator.Soundness.Compensate.{
  log_of, compensating-Backward, process_compensation_candidate-Compensating,
}
use trax.Coordinator.Soundness.Send.{Later, sent_step, Sent}
use trax.Coordinator.Soundness.Request.{dispatched-LastIs}
use trax.Coordinator.Soundness.UndoRequest.{HasUndoInput, process_compensation_running-Sent}
use trax.Coordinator.Process.{follow_up, process_step_in}
use trax.Coordinator.Process.Rounds.{
  Reliable, Surely, surely, no_failure, round_rule, next_round, last_round,
}

-- No saga has this one as its parent.
abbrev pub Childless : String → List String → Type 0
Childless g = All λ p. (p == g) ≡ false

no_children :
    (g : String) (l : List SagaInstance)
    → Childless g (lineage (record { sagas = l; steps = [] }))
    → keep (λ s. s.parent_saga_instance_id == g) l ≡ []
no_children g [] h = refl
no_children g (s ∷ l) h = rw h.0 (no_children g l h.1)

settled :
    (g id : String) (t : Tables) → Childless g (lineage t) → All (Settled id) (child_sagas g t)
unfolding child_sagas
settled g id t h = subst (All (Settled id)) (sym (no_children g t.sagas h)) tt

-- The step of a saga that a world `w` has come to waits in the world `v` for its compensation, for
-- which one request was sent. The rows stand in a backward picture.
pub record UndoDispatched (g : String) (before : List SagaStepInstance) (here : SagaStepInstance)
    (after : List SagaStepInstance) (w v : World) : Type 0 where
  pub row : SagaStepInstance
  pub same_id : row.instance_id ≡ here.instance_id
  pub runs : row.state ≡ compensation_running
  pub logged : LastIs true row.execution_history
  pub rows : Becomes g running (before ++ row ∷ after) v.tables
  pub closed : v.saved ≡ none
  pub request : StepRequest
  pub asked : request.saga_step_instance_id ≡ here.instance_id
  pub undoes : request.is_compensation ≡ true
  pub published : v.published ≡ request ∷ w.published
  pub later : Later w v

module _ (g : String) (before : List SagaStepInstance) (here : SagaStepInstance)
    (after : List SagaStepInstance) (w : World) (reliable : Reliable w.env)
    (focus : Focus g none running w here (before ++ here ∷ after)) (b : Backward before here after)
    (childless : Childless g (lineage w.tables)) where
  log : SagaStepExecutionLog
  log = log_of g w before here after

  new_row : SagaStepInstance
  new_row = compensating log here

  Holds : World → Type 0
  Holds v =
      Focus g none running v new_row (before ++ new_row ∷ after)
      × After (record w { calls = suc (suc (suc w.calls)) }) v

  -- The first round.
  round_starts : Surely (λ again v. Holds v × (again ≡ true)) process_compensation_candidate w
  unfolding Holds new_row log
  round_starts =
      weaken-Outcome _ _ _ process_compensation_candidate w
        (surely (After w) _ _ process_compensation_candidate w
          ((process_compensation_candidate-Quiet).at w)
          (λ v a s. no_failure w v reliable a.same_env s.1)
          (process_compensation_candidate-Compensating g w before here after focus b
            (settled g here.instance_id w.tables childless)))
        (λ again v h. ((h.0.0, h.0.2), h.0.1))

  -- The second round.
  round_sends :
      (v : World)
      → Holds v
      → Surely
          (λ again u. UndoDispatched g before here after w u × (again ≡ false))
          process_compensation_running
          v
  unfolding Holds new_row log new_log step_request
  round_sends v (held, a) =
      weaken-Outcome _ _ _ process_compensation_running v
        (surely (λ _. Unit {0}) _ _ process_compensation_running v tt
          (λ u _ s. no_failure w v reliable a.same_env s.1)
          (process_compensation_running-Sent g before new_row after v log held
            (compensating-Backward g w before here after b) refl
            (get_last?-append here.execution_history log) due))
        (λ again u h. (dispatched u h.0.0, h.0.1))
    where
      due : progress (v.env.clock v.calls) log ≡ to_send
      due = progress-new_log (w.env.clock (suc (suc w.calls))) (v.env.clock v.calls) true (
          subst (λ env. w.env.clock (suc (suc w.calls)) ≤ env.clock v.calls) (sym a.same_env)
            (reliable.steady (suc (suc w.calls)) v.calls (omega (arith, a.no_earlier))))

      dispatched :
          (u : World)
          → Sent g running
              (before ++ sent_step (tick v) new_row ∷ after)
              true
              (HasUndoInput g before new_row after v)
              (tick v)
              u
          → UndoDispatched g before here after w u
      dispatched u (closed, (m, is, message), rows, later) = record {
        row = sent_step (tick v) new_row;
        same_id = refl;
        runs = refl;
        logged =
            dispatched-LastIs true _ _ new_row
              (log, get_last?-append here.execution_history log, refl);
        rows = rows;
        closed = closed;
        request = step_request (tick v) true m;
        asked = ap (λ s. s.instance_id) held.step_held;
        undoes = refl;
        published = message ∙ ap (λ p. step_request (tick v) true m ∷ p) a.same_published;
        later = (
          later.0 ∙ a.same_env,
          omega (arith, later.1, a.no_earlier),
          later.2 ∙ After-lineage _ v a focus.saved_is,
        );
      }

  pub rounds-UndoDispatched :
      (rounds : ℕ)
      → here.state ≡ compensation_candidate
      → Surely (λ _ v. UndoDispatched g before here after w v) (follow_up (suc (suc rounds))) w
  unfolding process_step_in Holds new_row log
  rounds-UndoDispatched rounds candidate =
      next_round (λ _. ⊥) Holds _ (suc rounds) w
        (round_rule (λ _. ⊥) _ compensation_candidate w
          (ap (λ s. s.state) focus.step_held ∙ candidate) round_starts)
        (λ v holds.
          last_round (λ _. ⊥) _ rounds v
            (round_rule (λ _. ⊥) _ compensation_running v (ap (λ s. s.state) holds.0.step_held)
              (round_sends v holds)))
