-- ===== src/Coordinator/Soundness/Compensate.antt =====
-- The case COMPENSATION_CANDIDATE of processSagaStep, when no child saga is to be waited for.
use trax.Prelude.{
  suc, String, ◌≡◌, refl, sym, ap, subst, inl, ◌&&◌, Bool, true, false, none, some, List, [], ◌∷◌,
  ◌++◌, all, All, ends, get_last?-append,
}
use trax.State.{compensation_pending, running}
use trax.Model.{SagaStepInstance, SagaStepExecutionLog}
use trax.Store.{Tables, World, pure}
use trax.Store.Rows.{child_sagas}
use trax.Store.Calls.{get_child_saga_instances}
use trax.Store.Outcome.{
  Outcome, bind-Outcome, query-Outcome, gets-Outcome, then-Outcome, tick, with-Outcome,
}
use trax.Store.Quiet.{After}
use trax.Coordinator.Quiet.{transaction-Quiet}
use trax.Validation.{Position}
use trax.Coordinator.Transit.{transaction, give_up_saga}
use trax.Coordinator.Forward.{new_log, previous_is}
use trax.Coordinator.Backward.{is_undone, start_compensation, process_compensation_candidate}
use trax.Coordinator.Rules.Chain.{Chain}
use trax.Coordinator.Rules.Transitions.{saga_state, current_position-Outcome}
use trax.Coordinator.Rules.Focus.{Focus}
use trax.Coordinator.Rules.Loops.{clock_rule}
use trax.Coordinator.Rules.Transaction.{opened}
use trax.Coordinator.Soundness.Shapes.{Backward, Sound, backward}
use trax.Coordinator.Soundness.Held.{Becomes, Stopped, Saved, kept_rule}
use trax.Coordinator.Soundness.Starting.{previous-Are}
use trax.Coordinator.Soundness.Children.{Settled, known_rule, visit_Settled, Undone-all}
use trax.Coordinator.Soundness.Compensating.{
  compensating, compensate_with, compensate_with-Quiet, compensate_body,
}

module _ (g : String) (w : World) (before : List SagaStepInstance) (here : SagaStepInstance)
    (after : List SagaStepInstance) where
  -- The log that is made: the clock is read in the third call.
  abbrev pub log_of : SagaStepExecutionLog
  log_of = new_log (w.env.clock (suc (suc w.calls))) true

  pub compensating-Backward :
      Backward before here after → Backward before (compensating log_of here) after
  unfolding new_log
  compensating-Backward b = record {
    pending = b.pending;
    active = (log_of, get_last?-append here.execution_history log_of, refl);
    undone = b.undone;
  }

  compensating-Sound :
      Backward before here after
      → (t : Tables) → Chain g t (before ++ compensating log_of here ∷ after)
      → saga_state g t ≡ some running
      → Sound g t
  compensating-Sound b t chain row =
      backward before (compensating log_of here) after chain row (compensating-Backward b)

  -- As below, with what the handler holds at the end. The calls of the transaction follow three
  -- others.
  pub process_compensation_candidate-Compensating :
      Focus g none running w here (before ++ here ∷ after)
      → Backward before here after
      → All (Settled here.instance_id) (child_sagas g w.tables)
      → Outcome
          (λ again v.
            Focus g none running v
              (compensating log_of here)
              (before ++ compensating log_of here ∷ after)
            × (again ≡ true)
            × After (record w { calls = suc (suc (suc w.calls)) }) v)
          (Stopped w.tables (Becomes g running (before ++ compensating log_of here ∷ after)))
          (process_compensation_candidate w)
  unfolding process_compensation_candidate start_compensation get_child_saga_instances new_log pure
  process_compensation_candidate-Compensating focus b settled =
      current_position-Outcome R' F _ before here after _ w
        (subst (λ i. Chain i w.tables (before ++ here ∷ after)) (sym focus.saga_held) focus.chain)
        (ap (λ s. s.instance_id) focus.step_held) (λ e. (focus.saved_is, e, inl refl))
        (then-Outcome R' F
          (previous_is compensation_pending p && all (λ s. is_undone s.state) after) _ give_up_saga
          (tick w)
          (rw
            (
              previous-Are compensation_pending before here after (ends before) b.pending,
              Undone-all after b.undone,
            )
            refl)
          (gets-Outcome R' F (λ w. w.saga) _ (tick w)
            (gets-Outcome R' F (λ w. w.step) _ (tick w)
              (query-Outcome R' F (child_sagas w.saga.instance_id) _ (tick w)
                (λ e. (focus.saved_is, e, inl refl))
                (known_rule R' F _ false _ (tick (tick w)) (visit_Settled _ _ _ settled_here) (
                  clock_rule R' F _ (tick (tick w)) (
                    gets-Outcome R' F (λ w. w.step) _ ready
                      (bind-Outcome (λ _ v. H v × After ready v) R' F _ _ ready
                        (with-Outcome (λ _ v. H v) F (After ready)
                          (transaction (compensate_with (w.step.execution_history ++ log_of ∷ [])))
                          ready ((transaction-Quiet _ (compensate_with-Quiet _)).at ready)
                          (kept_rule g running running ready here (compensating log_of here)
                            (before ++ here ∷ after) (before ++ compensating log_of here ∷ after) _
                            (compensating-Sound b)
                            (record {
                              saved_is = focus.saved_is;
                              saga_held = focus.saga_held;
                              step_held = focus.step_held;
                              chain = focus.chain;
                              row = focus.row;
                              state_held = focus.state_held;
                            })
                            body))
                        (λ _ v h. (h.0, refl, h.1))))))))))
    where
      p : Position
      p = record { before = before; here = here; after = after }

      Q : Tables → Type 0
      Q = Becomes g running (before ++ compensating log_of here ∷ after)

      H : World → Type 0
      H v =
          Focus g none running v (compensating log_of here)
            (before ++ compensating log_of here ∷ after)

      R' : Bool → World → Type 0
      R' again v = H v × (again ≡ true) × After (record w { calls = suc (suc (suc w.calls)) }) v

      F : World → Type 0
      F = Stopped w.tables Q

      ready : World
      ready = record w { calls = suc (suc (suc w.calls)) }

      settled_here : All (Settled w.step.instance_id) (child_sagas w.saga.instance_id w.tables)
      settled_here =
          subst (λ s. All (Settled s.instance_id) (child_sagas w.saga.instance_id w.tables))
            (sym focus.step_held)
            (subst (λ i. All (Settled here.instance_id) (child_sagas i w.tables))
              (sym focus.saga_held) settled)

      body :
          Focus g (some w.tables) running (opened ready) here (before ++ here ∷ after)
          → Outcome
              (λ _ v.
                Focus g
                  (some w.tables)
                  running
                  v
                  (compensating log_of here)
                  (before ++ compensating log_of here ∷ after))
              (Saved w.tables)
              (compensate_with (w.step.execution_history ++ log_of ∷ []) (opened ready))
      body f =
          subst
            (λ h.
              Outcome
                (λ _ v.
                  Focus g (some w.tables) running v (compensating log_of here)
                    (before ++ compensating log_of here ∷ after))
                (Saved w.tables) (compensate_with (h ++ log_of ∷ []) (opened ready)))
            (sym (ap (λ s. s.execution_history) focus.step_held))
            (compensate_body g w.tables before here after log_of (opened ready) f)
