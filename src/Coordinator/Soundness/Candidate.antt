-- ===== src/Coordinator/Soundness/Candidate.antt =====
-- The case EXECUTION_CANDIDATE of processSagaStep keeps a saga sound.
use trax.Prelude.{
  inl, suc, String, ◌≡◌, refl, sym, ap, subst, ◌∙◌, ◌&&◌, Bool, true, false, none, some, List, [],
  ◌∷◌, ◌++◌, ends,
}
use trax.State.{execution_pending, execution_done, running}
use trax.Model.{SagaStepInstance, SagaStepExecutionLog}
use trax.Store.{Tables, World, pure}
use trax.Store.Outcome.{
  Outcome, bind-Outcome, gets-Outcome, modify-Outcome, then-Outcome, tick, with-Outcome,
}
use trax.Store.Quiet.{After}
use trax.Coordinator.Quiet.{transaction-Quiet}
use trax.Validation.{Position}
use trax.Coordinator.Transit.{transaction, give_up_saga}
use trax.Coordinator.Forward.{
  candidate_with, new_log, previous_is, next_is, start_execution, process_execution_candidate,
}
use trax.Coordinator.Rules.Focus.{Focus}
use trax.Coordinator.Rules.Loops.{clock_rule, random_rule}
use trax.Coordinator.Rules.Chain.{Chain}
use trax.Coordinator.Rules.Transitions.{saga_state, current_position-Outcome}
use trax.Coordinator.Rules.Transaction.{opened}
use trax.Coordinator.Soundness.Shapes.{Sound, Forward, forward}
use trax.Coordinator.Soundness.Held.{Becomes, Stopped, kept_rule}
use trax.Coordinator.Soundness.Starting.{
  previous-Are, next-Waiting, started, start_with_step, start_with_step-Quiet, start_body,
}

module _ (g : String) (before : List SagaStepInstance) (here : SagaStepInstance)
    (after : List SagaStepInstance) where
  -- The step as the handler starts it.
  abbrev pub prepared : World → SagaStepInstance
  prepared w = record here {
    execution_id = w.env.random (suc w.calls);
    execution_history = new_log (w.env.clock (suc (suc w.calls))) false ∷ [];
  }

  pub started-Forward :
      (w : World) → Forward before here after → Forward before (started (prepared w) here) after
  unfolding new_log
  started-Forward w f = record {
    done = f.done;
    active = (new_log (w.env.clock (suc (suc w.calls))) false, refl, refl);
    waiting = f.waiting;
  }

  started-Sound :
      (w : World)
      → Forward before here after
      → (t : Tables) → Chain g t (before ++ started (prepared w) here ∷ after)
      → saga_state g t ≡ some running
      → Sound g t
  started-Sound w f t chain row =
      forward before (started (prepared w) here) after chain row (started-Forward w f)

  -- As below, with what the handler holds at the end. The calls of the transaction follow three others.
  pub process_execution_candidate-Started :
      (w : World)
      → Focus g none running w here (before ++ here ∷ after)
      → Forward before here after
      → here.execution_history ≡ []
      → Outcome
          (λ again v.
            Focus g none running v
              (started (prepared w) here)
              (before ++ started (prepared w) here ∷ after)
            × (again ≡ true)
            × After (record w { calls = suc (suc (suc w.calls)) }) v)
          (Stopped w.tables (Becomes g running (before ++ started (prepared w) here ∷ after)))
          (process_execution_candidate w)
  unfolding process_execution_candidate candidate_with start_execution pure
  process_execution_candidate-Started w focus f fresh =
      gets-Outcome R F (λ w. w.step) _ w
        (subst (λ h. Outcome R F (candidate_with h w))
          (sym (ap (λ s. s.execution_history) focus.step_held ∙ fresh))
          (current_position-Outcome R F _ before here after _ w
            (subst (λ i. Chain i w.tables (before ++ here ∷ after)) (sym focus.saga_held)
              focus.chain)
            (ap (λ s. s.instance_id) focus.step_held) (λ e. (focus.saved_is, e, inl refl))
            (then-Outcome R F (previous_is execution_done p && next_is execution_pending p)
              start_execution give_up_saga (tick w)
              (rw
                (
                  previous-Are execution_done before here after (ends before) f.done,
                  next-Waiting before here after f.waiting,
                )
                refl)
              (random_rule R F _ (tick w) (
                clock_rule R F _ _ (
                  modify-Outcome R F _ _ _ (
                    bind-Outcome (λ _ v. H v × After world v) R F _ _ _
                      (with-Outcome (λ _ v. H v) F (After world) (transaction start_with_step) world
                        ((transaction-Quiet _ start_with_step-Quiet).at world)
                        (kept_rule g running running world (prepared w) (started (prepared w) here)
                          (before ++ here ∷ after) (before ++ started (prepared w) here ∷ after)
                          start_with_step (started-Sound w f)
                          (record {
                            saved_is = focus.saved_is;
                            saga_held = focus.saga_held;
                            step_held = prepared_is;
                            chain = focus.chain;
                            row = focus.row;
                            state_held = focus.state_held;
                          })
                          (λ e.
                            start_body g before here after w.tables (opened world) (prepared w) e
                              refl)))
                      (λ _ v h. (h.0, refl, later v h.1)))))))))
    where
      Q : Tables → Type 0
      Q = Becomes g running (before ++ started (prepared w) here ∷ after)

      H : World → Type 0
      H v =
          Focus g none running v (started (prepared w) here)
            (before ++ started (prepared w) here ∷ after)

      R : Bool → World → Type 0
      R again v = H v × (again ≡ true) × After (record w { calls = suc (suc (suc w.calls)) }) v

      F : World → Type 0
      F = Stopped w.tables Q

      p : Position
      p = record { before = before; here = here; after = after }

      log : SagaStepExecutionLog
      log = new_log (w.env.clock (suc (suc w.calls))) false

      change : SagaStepInstance → SagaStepInstance
      change s = record s {
        execution_id = w.env.random (suc w.calls);
        execution_history = log ∷ [];
      }

      world : World
      world = record w { calls = suc (suc (suc w.calls)); step = change w.step }

      prepared_is : world.step ≡ prepared w
      prepared_is = ap change focus.step_held

      later : (v : World) → After world v → After (record w { calls = suc (suc (suc w.calls)) }) v
      later v a = record {
        same_env = a.same_env;
        no_earlier = a.no_earlier;
        same_published = a.same_published;
        same_lineage = a.same_lineage;
      }
