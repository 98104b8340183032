-- ===== src/Coordinator/Soundness/Request.antt =====
-- The case EXECUTION_RUNNING of processSagaStep when the request is to be sent.
use mathlib.Core.Option
use trax.Prelude.{
  ℕ, String, ◌≡◌, refl, sym, ap, subst, ◌∙◌, inl, Bool, false, none, some, List, [], ◌∷◌, ◌++◌,
  get_last?,
}
use trax.State.{execution_running, running}
use trax.Model.{SagaStepInstance, SagaStepExecutionLog, StringMap}
use trax.Sequence.{get_previous_steps_in_order}
use trax.Store.{Tables, World, pure, ◌>>=◌}
use trax.Store.Rows.{steps_of_saga}
use trax.Store.Calls.{list_saga_step_instances}
use trax.Store.Outcome.{Outcome, gets-Outcome, query-Outcome, tick}
use trax.Coordinator.Running.{
  update_last, or_hang, collect_results, execution_input, to_send, progress, execution_progressed,
  running_with, process_execution_running, step_request,
}
use trax.Coordinator.Running.Timing.{sent_at}
use trax.Coordinator.Rules.Chain.{Chain}
use trax.Coordinator.Rules.Transitions.{saga_state}
use trax.Coordinator.Rules.Focus.{Focus}
use trax.Coordinator.Rules.Loops.{clock_rule}
use trax.Coordinator.Rules.Transaction.{opened}
use trax.Coordinator.Soundness.Inputs.{gathered, collect_results-Are, previous-Chain}
use trax.Coordinator.Soundness.Shapes.{Forward, ForwardHere, LastIs, Sound, forward}
use trax.Coordinator.Soundness.Send.{dispatched, sent_step, Sent, Unsent, Broken, send_request-Sent}

get_last?-update_last :
    (f : SagaStepExecutionLog → SagaStepExecutionLog) (history : List SagaStepExecutionLog)
    (log : SagaStepExecutionLog)
    → get_last? history ≡ some log
    → get_last? (update_last f history) ≡ some (f log)
unfolding update_last
get_last?-update_last f [] log h = ap (Option.map f) h
get_last?-update_last f (a ∷ []) log h = ap (Option.map f) h
get_last?-update_last f (a ∷ b ∷ []) log h = ap (Option.map f) h
get_last?-update_last f (a ∷ b ∷ c ∷ history) log h =
    get_last?-update_last f (b ∷ c ∷ history) log h

-- The log that is sent is still of the same kind.
pub dispatched-LastIs :
    (kind : Bool) (now timeout : ℕ) (here : SagaStepInstance)
    → LastIs kind here.execution_history
    → LastIs kind (dispatched now timeout here).execution_history
dispatched-LastIs kind now timeout here (log, last, is) =
    (sent_at now timeout log, get_last?-update_last (sent_at now timeout) _ log last, is)

module _ (g : String) (before : List SagaStepInstance) (here : SagaStepInstance)
    (after : List SagaStepInstance) where
  -- The input of the request.
  abbrev pub HasInput : World → StringMap → Type 0
  HasInput w m = m ≡ gathered w.saga.input before

  module _ (w : World) (focus : Focus g none running w here (before ++ here ∷ after))
      (f : Forward before here after) (runs : here.state ≡ execution_running) where
    sound :
        (t : Tables)
        → Chain g t (before ++ sent_step w here ∷ after)
        → saga_state g t ≡ some running
        → Sound g t
    sound t chain row = forward before (sent_step w here) after chain row (record {
      done = f.done;
      active =
          subst (ForwardHere (sent_step w here)) (sym runs)
            (dispatched-LastIs false _ _ here (subst (ForwardHere here) runs f.active));
      waiting = f.waiting;
    })

    R : StringMap → World → Type 0
    R m v = HasInput w m × (v ≡ tick (opened w))

    F : World → Type 0
    F = Broken g running before here after false (HasInput w) w focus sound

    input_read : Outcome R F (execution_input (opened w))
    unfolding execution_input list_saga_step_instances R F pure ◌>>=◌
    input_read =
        gets-Outcome R F (λ w. w.saga) _ (opened w)
          (query-Outcome R F (steps_of_saga w.saga.instance_id) _ (opened w)
            (λ e. (refl, e, inl refl))
            (gets-Outcome R F (λ w. w.step) _ _
              (subst
                (λ o. Outcome R F ((or_hang o >>= collect_results w.saga.input) (tick (opened w))))
                (sym previous)
                (subst (λ r. Outcome R F r)
                  (sym (collect_results-Are w.saga.input before (tick (opened w)) f.done))
                  (refl, refl)))))
      where
        previous :
            get_previous_steps_in_order (steps_of_saga w.saga.instance_id w.tables) w.step
            ≡ some before
        previous =
            ap (λ i. get_previous_steps_in_order (steps_of_saga i w.tables) w.step) focus.saga_held
            ∙ ap (get_previous_steps_in_order (steps_of_saga g w.tables)) focus.step_held
            ∙ previous-Chain g w before here after focus.chain

    request_goes_out :
        Outcome
          (λ again v.
            Sent g running (before ++ sent_step w here ∷ after) false (HasInput w) w v
            × (again ≡ false))
          (Unsent g running (before ++ sent_step w here ∷ after) false (HasInput w) w)
          (execution_progressed 0 to_send w)
    unfolding execution_progressed R F
    request_goes_out =
        send_request-Sent g running before here after false (HasInput w) w focus sound
          execution_input input_read

  -- A handler holds a running saga, whose steps stand in a forward picture, and the step that the
  -- saga has come to, which is EXECUTION_RUNNING, with no transaction open. The last log of the
  -- step says that its request is still to be sent. The case EXECUTION_RUNNING publishes exactly
  -- one message, the request of an execution, whose input is the input of the saga with the
  -- results of the previous steps merged into it in their order. It writes the time and the end of
  -- the timeout into the last log, changes nothing else in the rows, which stay in a forward
  -- picture, and asks for no other round. It stops only in an environment that makes some call
  -- fail, with all of this done, or with no row changed and the message sent or not. It never marks
  -- the saga invalid, panics or loops for ever.
  pub process_execution_running-Sent :
      (w : World) (log : SagaStepExecutionLog)
      → Focus g none running w here (before ++ here ∷ after)
      → Forward before here after
      → here.state ≡ execution_running
      → get_last? here.execution_history ≡ some log
      → progress (w.env.clock w.calls) log ≡ to_send
      → Outcome
          (λ again v.
            Sent g running (before ++ sent_step (tick w) here ∷ after) false (HasInput w) (tick w) v
            × (again ≡ false))
          (Unsent g running (before ++ sent_step (tick w) here ∷ after) false (HasInput w) (tick w))
          (process_execution_running w)
  unfolding process_execution_running running_with execution_progressed step_request
  process_execution_running-Sent w log focus f runs last unsent =
      gets-Outcome R' F' (λ w. w.step) _ w
        (subst (λ o. Outcome R' F' (running_with o w))
          (sym (ap (λ s. get_last? s.execution_history) focus.step_held ∙ last))
          (clock_rule R' F' _ w (
            subst (λ p. Outcome R' F' (execution_progressed (w.env.clock w.calls) p (tick w)))
              (sym unsent)
              (request_goes_out (tick w)
                (record {
                  saved_is = focus.saved_is;
                  saga_held = focus.saga_held;
                  step_held = focus.step_held;
                  chain = focus.chain;
                  row = focus.row;
                  state_held = focus.state_held;
                })
                f runs))))
    where
      R' : Bool → World → Type 0
      R' again v =
          Sent g running (before ++ sent_step (tick w) here ∷ after) false (HasInput w) (tick w) v
          × (again ≡ false)

      F' : World → Type 0
      F' = Unsent g running (before ++ sent_step (tick w) here ∷ after) false (HasInput w) (tick w)
