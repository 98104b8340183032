-- ===== src/Coordinator/Soundness/UndoRequest.antt =====
-- The case COMPENSATION_RUNNING of processSagaStep when the request is to be sent.
use trax.Prelude.{
  String, ◌≡◌, ◌⊎◌, refl, sym, ap, subst, ◌∙◌, inl, inr, Bool, Bool-cases, true, false, Option,
  none, some, List, [], ◌∷◌, ◌++◌, get_last?, eq_refl,
}
use trax.State.{compensation_running, running}
use trax.Model.{SagaStepInstance, SagaStepExecutionLog, StringMap, map_put_all}
use trax.Sequence.{order_saga_steps_in_sequence}
use trax.Sequence.Chains.{Absent}
use trax.Validation.{locate}
use trax.Store.{Tables, World, M, pure, gets, try, attempt, ◌>>=◌}
use trax.Store.Rows.{steps_of_saga}
use trax.Store.Calls.{list_saga_step_instances}
use trax.Store.Outcome.{Outcome, Failed, gets-Outcome, then-Outcome, tick}
use trax.Coordinator.Running.{
  or_hang, forward_results, compensation_results, enriched_input, compensation_input, over_later,
  compensation_progressed, compensation_running_with, to_send, progress,
  process_compensation_running, step_request,
}
use trax.Coordinator.Result.{last_is_compensation}
use trax.Coordinator.Rules.Chain.{Chain, Distinct-at, locate_lem}
use trax.Coordinator.Rules.Transitions.{saga_state}
use trax.Coordinator.Rules.Focus.{Focus}
use trax.Coordinator.Rules.Loops.{clock_rule}
use trax.Coordinator.Rules.Transaction.{opened}
use trax.Coordinator.Soundness.Inputs.{gathered}
use trax.Coordinator.Soundness.Shapes.{Backward, BackwardHere, Sound, backward}
use trax.Coordinator.Soundness.Send.{sent_step, Sent, Unsent, Broken, send_request-Sent}
use trax.Coordinator.Soundness.Request.{dispatched-LastIs}

-- The results up to a step are those of the steps before it and its own.
forward_results-gathered :
    (before : List SagaStepInstance) (here : SagaStepInstance) (after : List SagaStepInstance)
    (input : StringMap)
    → Absent here.instance_id before
    → forward_results here.instance_id input (before ++ here ∷ after)
      ≡ gathered input (before ++ here ∷ [])
unfolding forward_results
forward_results-gathered [] here after input h = rw (eq_refl here.instance_id) refl
forward_results-gathered (s ∷ before) here after input h =
    rw h.0 (forward_results-gathered before here after (map_put_all input s.result) h.1)

-- What a compensation is told: the results up to its step, then the compensation results of the
-- steps after it, over the input of the saga.
abbrev pub undo_input :
    List SagaStepInstance → SagaStepInstance → List SagaStepInstance → StringMap → StringMap
undo_input before here after input =
    compensation_results (gathered input (before ++ here ∷ [])) after

enriched_input_lem :
    (before : List SagaStepInstance) (here : SagaStepInstance) (after : List SagaStepInstance)
    (input : StringMap)
    → Absent here.instance_id before
    → enriched_input here.instance_id input (before ++ here ∷ after)
      ≡ undo_input before here after input
unfolding enriched_input
enriched_input_lem before here after input h =
    ap (λ m. over_later m (locate here.instance_id (before ++ here ∷ after)))
      (forward_results-gathered before here after input h)
    ∙ ap (over_later (gathered input (before ++ here ∷ []))) (locate_lem before here after h)

-- A read whose failure the code goes on without.
module _ {κ} {B : Type κ} (R : B → World → Type 0) (F : World → Type 0) where
  try_list_rule :
      (id : String) (k : Option (List SagaStepInstance) → M B) (w : World)
      → (Failed w → Outcome R F (k none (tick w)))
      → Outcome R F (k (some (steps_of_saga id w.tables)) (tick w))
      → Outcome R F ((try (list_saga_step_instances id) >>= k) w)
  unfolding try list_saga_step_instances ◌>>=◌ attempt gets
  try_list_rule id k w failed h = elim (Bool-cases (w.env.fails w.calls)) [
    | inl e ↦ rw e (failed (w.calls, e))
    | inr e ↦ rw e h
  ]

module _ (g : String) (before : List SagaStepInstance) (here : SagaStepInstance)
    (after : List SagaStepInstance) where
  -- The input of the request: without the steps, in an environment that makes some call fail, it
  -- is that of the saga.
  abbrev pub HasUndoInput : World → StringMap → Type 0
  HasUndoInput w m =
      ((m ≡ w.saga.input) × Failed w) ⊎ (m ≡ undo_input before here after w.saga.input)

  module _ (w : World) (focus : Focus g none running w here (before ++ here ∷ after))
      (f : Backward before here after) (runs : here.state ≡ compensation_running) where
    sound :
        (t : Tables)
        → Chain g t (before ++ sent_step w here ∷ after)
        → saga_state g t ≡ some running
        → Sound g t
    sound t chain row = backward before (sent_step w here) after chain row (record {
      pending = f.pending;
      active =
          subst (BackwardHere (sent_step w here)) (sym runs)
            (dispatched-LastIs true _ _ here (subst (BackwardHere here) runs f.active));
      undone = f.undone;
    })

    R : StringMap → World → Type 0
    R m v = HasUndoInput w m × (v ≡ tick (opened w))

    F : World → Type 0
    F = Broken g running before here after true (HasUndoInput w) w focus sound

    input_read : Outcome R F (compensation_input (opened w))
    unfolding compensation_input R F pure ◌>>=◌
    input_read =
        gets-Outcome R F (λ w. w.saga) _ (opened w)
          (gets-Outcome R F (λ w. w.step) _ (opened w)
            (try_list_rule R F w.saga.instance_id _ (opened w) (λ e. (inl (refl, e), refl))
              (subst
                (λ o. Outcome R F (
                  (or_hang o >>= λ ordered.
                  pure (enriched_input w.step.instance_id w.saga.input ordered))
                    (tick (opened w))))
                (sym listed) (inr enriched, refl))))
      where
        listed :
            order_saga_steps_in_sequence (steps_of_saga w.saga.instance_id w.tables)
            ≡ some (before ++ here ∷ after)
        listed =
            ap (λ i. order_saga_steps_in_sequence (steps_of_saga i w.tables)) focus.saga_held
            ∙ focus.chain.ordered

        enriched :
            enriched_input w.step.instance_id w.saga.input (before ++ here ∷ after)
            ≡ undo_input before here after w.saga.input
        enriched =
            ap (λ s. enriched_input s.instance_id w.saga.input (before ++ here ∷ after))
              focus.step_held
            ∙ enriched_input_lem before here after w.saga.input
                (Distinct-at before here after focus.chain.distinct).0

    request_goes_out :
        Outcome
          (λ again v.
            Sent g running (before ++ sent_step w here ∷ after) true (HasUndoInput w) w v
            × (again ≡ false))
          (Unsent g running (before ++ sent_step w here ∷ after) true (HasUndoInput w) w)
          (compensation_progressed 0 to_send w)
    unfolding compensation_progressed R F
    request_goes_out =
        send_request-Sent g running before here after true (HasUndoInput w) w focus sound
          compensation_input input_read

  -- A handler holds a running saga, whose steps stand in a backward picture, and the step that the
  -- saga has come to, which is COMPENSATION_RUNNING, with no transaction open. The last log of the
  -- step is one of a compensation and says that its request is still to be sent. The case
  -- COMPENSATION_RUNNING publishes exactly one message, the request of a compensation. Its input
  -- is the input of the saga with these merged into it: the results of the steps up to this one
  -- and the compensation results of the later steps that are COMPENSATION_DONE, in the order of
  -- the steps; only in an environment that makes some call fail it may be the input of the saga
  -- alone. The case writes the time and the end of the timeout into the last log, changes nothing
  -- else in the rows, which stay in a backward picture, and asks for no other round. It stops only
  -- in an environment that makes some call fail, with all of this done, or with no row changed and
  -- the message sent or not. It never marks the saga invalid, panics or loops for ever.
  pub process_compensation_running-Sent :
      (w : World) (log : SagaStepExecutionLog)
      → Focus g none running w here (before ++ here ∷ after)
      → Backward before here after
      → here.state ≡ compensation_running
      → get_last? here.execution_history ≡ some log
      → progress (w.env.clock w.calls) log ≡ to_send
      → Outcome
          (λ again v.
            Sent g running
              (before ++ sent_step (tick w) here ∷ after)
              true
              (HasUndoInput w)
              (tick w)
              v
            × (again ≡ false))
          (Unsent g running
            (before ++ sent_step (tick w) here ∷ after)
            true
            (HasUndoInput w)
            (tick w))
          (process_compensation_running w)
  unfolding process_compensation_running compensation_running_with compensation_progressed
      step_request
  process_compensation_running-Sent w log focus f runs last unsent =
      gets-Outcome R' F' (λ w. w.step) _ w
        (subst (λ o. Outcome R' F' (compensation_running_with o w))
          (sym (ap (λ s. get_last? s.execution_history) focus.step_held ∙ last))
          (clock_rule R' F' _ w (
            then-Outcome R' F' log.is_compensation _ _ (tick w) of_undo (
              subst (λ p. Outcome R' F' (compensation_progressed (w.env.clock w.calls) p (tick w)))
                (sym unsent)
                (request_goes_out (tick w)
                  (record {
                    saved_is = focus.saved_is;
                    saga_held = focus.saga_held;
                    step_held = focus.step_held;
                    chain = focus.chain;
                    row = focus.row;
                    state_held = focus.state_held;
                  })
                  f runs)))))
    where
      R' : Bool → World → Type 0
      R' again v =
          Sent g running (before ++ sent_step (tick w) here ∷ after) true (HasUndoInput w) (tick w)
            v
          × (again ≡ false)

      F' : World → Type 0
      F' =
          Unsent g running (before ++ sent_step (tick w) here ∷ after) true (HasUndoInput w)
            (tick w)

      of_undo : log.is_compensation ≡ true
      of_undo =
          let (l, last', is) = subst (BackwardHere here) runs f.active in
          ap last_is_compensation (sym last ∙ last') ∙ is
