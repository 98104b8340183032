-- ===== src/Coordinator/Result/Accepted.antt =====
-- Results that a step waits for.
use mathlib.Core.Option
use trax.Prelude.{
  ℕ, suc, String, ◌≡◌, refl, sym, subst, ◌∙◌, ◌⊎◌, inl, inr, Bool, true, false, Option, none, some,
  List, ◌∷◌, ◌++◌, get_last?, arith,
}
use trax.State.{SagaStepState, running}
use trax.Model.{SagaInstance, SagaStepInstance, SagaStepExecutionLog}
use trax.Store.{Tables, World, pure, modify, attempt, ◌>>◌}
use trax.Store.Rows.{saga_row, step_row}
use trax.Store.Calls.{get_saga_step_instance, get_saga_instance}
use trax.Store.Outcome.{
  Outcome, Failed, tick, bind-Outcome, query-Outcome, attempt-Outcome, gets-Outcome, modify-Outcome,
  last-Outcome,
}
use trax.Coordinator.Transit.{transit_current_step, checked_transaction_if}
use trax.Coordinator.Running.{update_last_log}
use trax.Coordinator.Result.{
  SagaStepExecutionResultPayload, ignores_result, result_state, apply_result, record_result,
  receive_result, process_saga_step_execution_result,
}
use trax.Coordinator.Rules.Chain.{Chain}
use trax.Coordinator.Rules.Transitions.{saga_state, transit_current-Outcome}
use trax.Coordinator.Rules.Zipper.{Chain-row, Chain-set_step_state, saga_state-set_step_state}
use trax.Coordinator.Rules.Loops.{clock_rule}
use trax.Coordinator.Rules.Transaction.{opened, checked_transaction_of-Outcome}
use trax.Coordinator.Soundness.Shapes.{Sound}
use trax.Coordinator.Soundness.Held.{Becomes, Inside, Made, Stopped, Saved}
use trax.Coordinator.Result.Recording.{
  concluded, received_at, store_rule, history_call, stored, Chain-stored, saga_state-stored,
}

-- The handler of a result that began with the rows `t` has returned before its rollback was
-- deferred, since some call failed: its transaction is open, with nothing in it.
abbrev pub LeftOpen : Tables → World → Type 0
LeftOpen t v = (v.saved ≡ some t) × Failed v × (v.tables ≡ t)

-- It has stopped in one of the two ways.
abbrev pub Left : Tables → (Tables → Type 0) → World → Type 0
Left t Q v = Stopped t Q v ⊎ LeftOpen t v

module _ (g : String) (before : List SagaStepInstance) (here : SagaStepInstance)
    (after : List SagaStepInstance) (payload : SagaStepExecutionResultPayload)
    (log : SagaStepExecutionLog) (target : SagaStepState)
    (last : get_last? here.execution_history ≡ some log)
    (goes_to : result_state log.is_compensation payload.status ≡ some target) where
  -- The body of the transaction once both instances are read.
  abbrev Recorded : ℕ → World → Unit {0} → World → Type 0
  Recorded now w _ v =
      Inside w.tables
        (λ t.
          Chain g t (
            before
            ++ concluded log.is_compensation target now payload.execution_result here ∷ after)
          × (saga_state g t ≡ some running))
        v
      × (v.spawned ≡ (payload.saga_instance_id, payload.saga_step_instance_id) ∷ w.spawned)

  abbrev spawn : World → World
  spawn w = record w {
    spawned = (payload.saga_instance_id, payload.saga_step_instance_id) ∷ w.spawned;
  }

  apply_result_known :
      apply_result payload log.is_compensation ≡ (transit_current_step target >> modify spawn)
  unfolding apply_result
  apply_result_known = rw (goes_to, apply_result) refl

  -- The end of the body: the transition, and the goroutine.
  applied :
      (now : ℕ) (u : World) (t : Tables)
      → Chain g t (before ++ here ∷ after)
      → saga_state g t ≡ some running
      → let s = concluded log.is_compensation here.state now payload.execution_result here in
        let w = record u { step = here; tables = t; saved = some t } in
        Outcome (Recorded now w) (Saved t) (
          (attempt >> (apply_result payload log.is_compensation >> attempt)) (record u {
            step = s;
            tables = stored log.is_compensation now payload.execution_result here t;
            saved = some t;
          }))
  unfolding pure modify
  applied now u t c row =
      attempt-Outcome R F _ _ (λ e. (refl, e))
        (subst (λ m. Outcome R F ((m >> attempt) (tick x))) (sym apply_result_known)
          (bind-Outcome R R F (transit_current_step target >> modify spawn) (λ _. attempt) (tick x)
            (transit_current-Outcome R F target s _ (tick x)
              (Chain-row g x.tables before s after chain) (λ t n e. (refl, e))
              (
                (
                  refl,
                  (
                    Chain-set_step_state g x.tables before s after chain target,
                    saga_state-set_step_state g x.tables s.instance_id target
                        ∙ saga_state-stored g before here after payload.execution_result now t
                            log.is_compensation
                        ∙ row,
                  ),
                ),
                refl,
              ))
            (λ _ v r. last-Outcome R F attempt v (attempt-Outcome R F pure v (λ e. (r.0.0, e)) r))))
    where
      s : SagaStepInstance
      s = concluded log.is_compensation here.state now payload.execution_result here

      x : World
      x = record u {
        step = s;
        tables = stored log.is_compensation now payload.execution_result here t;
        saved = some t;
      }

      chain : Chain g x.tables (before ++ s ∷ after)
      chain = Chain-stored g before here after payload.execution_result now t log.is_compensation c

      w : World
      w = record u { step = here; tables = t; saved = some t }

      R : Unit {0} → World → Type 0
      R = Recorded now w

      F : World → Type 0
      F = Saved t

  result_body :
      (u : World) (t : Tables)
      → Chain g t (before ++ here ∷ after)
      → saga_state g t ≡ some running
      → Outcome
          (Recorded
            (u.env.clock (suc (suc u.calls)))
            (record u { step = here; tables = t; saved = some t }))
          (Saved t)
          (record_result payload (record u { step = here; tables = t; saved = some t }))
  unfolding record_result update_last_log pure
  result_body u t c row =
      attempt-Outcome R F _ w (λ e. (refl, e))
        (gets-Outcome R F (λ w. w.step) _ _
          (rw last (
            store_rule R F log.is_compensation payload.execution_result _ _ (λ e. (refl, e))
              (clock_rule R F _ _ (
                modify-Outcome R F _ _ _ (
                  gets-Outcome R F (λ w. w.step) _ _
                    (history_call R F _ _ _ (λ e. (refl, e))
                      (applied (u.env.clock (suc (suc u.calls)))
                        (record u { calls = suc (suc (suc (suc u.calls))) }) t c row))))))))
    where
      w : World
      w = record u { step = here; tables = t; saved = some t }

      R : Unit {0} → World → Type 0
      R = Recorded (u.env.clock (suc (suc u.calls))) w

      F : World → Type 0
      F = Saved t

  received :
      (w : World) (saga : SagaInstance)
      → Chain g w.tables (before ++ here ∷ after)
      → saga_state g w.tables ≡ some running
      → step_row payload.saga_step_instance_id w.tables ≡ some here
      → saga_row payload.saga_instance_id w.tables ≡ some saga
      → ignores_result here.state ≡ false
      → Outcome
          (λ a v. (a ≡ true) × Recorded (received_at w) w tt v)
          (Saved w.tables)
          (receive_result payload (tick (opened w)))
  unfolding receive_result get_saga_step_instance get_saga_instance pure
  received w saga c row step_there saga_there awaited =
      (query-Outcome R F (step_row payload.saga_step_instance_id) _ _ (λ e. (refl, e))
        (rw step_there (
          modify-Outcome R F _ _ _ (
            attempt-Outcome R F _ _ (λ e. (refl, e))
              (rw awaited (
                query-Outcome R F (saga_row payload.saga_instance_id) _ _ (λ e. (refl, e))
                  (rw saga_there (
                    modify-Outcome R F _ _ _ (
                      bind-Outcome (Recorded (received_at w) w) R F (record_result payload) _ _
                        (result_body
                          (record w { calls = suc (suc (suc (suc (suc w.calls)))); saga = saga })
                          w.tables c row)
                        (λ _ v r. (refl, r)))))))))))
    where
      R : Bool → World → Type 0
      R a v = (a ≡ true) × Recorded (received_at w) w tt v

      F : World → Type 0
      F = Saved w.tables

  -- The step once its result is recorded.
  abbrev pub row_after : World → SagaStepInstance
  row_after w = concluded log.is_compensation target (received_at w) payload.execution_result here

  -- The handler of a result that is awaited, where the row that it leaves fits.
  pub awaited_result-Made :
      (w : World)
      → w.saved ≡ none
      → Chain g w.tables (before ++ here ∷ after)
      → saga_state g w.tables ≡ some running
      → payload.saga_instance_id ≡ g
      → payload.saga_step_instance_id ≡ here.instance_id
      → ignores_result here.state ≡ false
      → ((t : Tables)
          → Chain g t (before ++ row_after w ∷ after)
          → saga_state g t ≡ some running
          → Sound g t)
      → Outcome {A = Unit {0}}
          (λ _ v.
            Made (Becomes g running (before ++ row_after w ∷ after)) v
            × (v.spawned ≡ (payload.saga_instance_id, payload.saga_step_instance_id) ∷ w.spawned))
          (Left w.tables (Becomes g running (before ++ row_after w ∷ after)))
          (process_saga_step_execution_result payload w)
  unfolding process_saga_step_execution_result pure
  awaited_result-Made w closed c row same_saga same_step awaited sound =
      bind-Outcome {A = Bool} (λ _. P) (λ _. P) (Left w.tables Q)
        (checked_transaction_if (λ commit. commit) (receive_result payload)) (λ _. pure tt) w
        (checked_transaction_of-Outcome (λ commit. commit) w.tables (λ _. P)
          (λ a v. (a ≡ true) × Recorded (received_at w) w tt v) (Saved w.tables) (Left w.tables Q)
          (λ a v r. r.0) (λ a v r. r.1.0.0) (λ a v r. ((refl, becomes v r.1), r.1.1))
          (λ a v r e. inl (refl, e, inr (becomes v r.1))) (λ a v r e. inl (refl, e, inl refl))
          (λ v h. h.0) (λ v h. inl (refl, h.1, inl refl)) (receive_result payload) w closed
          (λ e. inl (closed, e, inl refl)) (λ e. inr (refl, e, refl)) refl
          (received w (row_of (saga_row g w.tables) row).0 c row
            (subst (λ i. step_row i w.tables ≡ some here) (sym same_step)
              (Chain-row g w.tables before here after c))
            (subst (λ i. saga_row i w.tables ≡ some (row_of (saga_row g w.tables) row).0)
              (sym same_saga) (row_of (saga_row g w.tables) row).1)
            awaited))
        (λ _ v r. r)
    where
      Q : Tables → Type 0
      Q = Becomes g running (before ++ row_after w ∷ after)

      P : World → Type 0
      P v =
          Made Q v
          × (v.spawned ≡ (payload.saga_instance_id, payload.saga_step_instance_id) ∷ w.spawned)

      becomes : (v : World) → Recorded (received_at w) w tt v → Q v.tables
      becomes v r = (sound v.tables r.0.1.0 r.0.1.1, r.0.1.0, r.0.1.1)

      row_of :
          (o : Option SagaInstance)
          → Option.map (λ s. s.state) o ≡ some running
          → (r : SagaInstance) × (o ≡ some r)
      row_of o p = ground arith
