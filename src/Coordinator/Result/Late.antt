-- ===== src/Coordinator/Result/Late.antt =====
-- Results that come too late.
use trax.Prelude.{suc, ◌≡◌, refl, Bool, true, Option, none, some}
use trax.Model.{SagaStepInstance}
use trax.Store.{Tables, World, pure, exit, ◌>>=◌}
use trax.Store.Outcome.{Outcome, bind-Outcome, query-Outcome, modify-Outcome, attempt-Outcome}
use trax.Coordinator.Process.Skipped.{Untouched}
use trax.Store.Rows.{step_row}
use trax.Store.Calls.{get_saga_step_instance, begin_transaction, begin_unless_open}
use trax.Coordinator.Rules.Transaction.{opened, checked_transaction_of-Outcome}
use trax.Coordinator.Transit.{checked_transaction_if}
use trax.Coordinator.Result.{
  SagaStepExecutionResultPayload, ignores_result, receive_result,
  process_saga_step_execution_result,
}

-- The body of the transaction has done nothing.
abbrev Reading : World → World → Type 0
Reading w v = (v.saved ≡ some w.tables) × Untouched w v

module _ (payload : SagaStepExecutionResultPayload) (w : World) (step : SagaStepInstance)
    (row : step_row payload.saga_step_instance_id w.tables ≡ some step)
    (late : ignores_result step.state ≡ true) where
  abbrev R : Bool → World → Type 0
  R a v = (a ≡ true) × Reading w v

  untouched : Reading w (opened w)
  untouched = (refl, (refl, refl, refl))

  -- The body only reads.
  late_body :
      Outcome R
        (Reading w)
        (receive_result payload (record (opened w) { calls = suc (suc w.calls) }))
  unfolding receive_result get_saga_step_instance pure
  late_body =
      query-Outcome R F (step_row payload.saga_step_instance_id) _ _ (λ e. untouched)
        (rw row (
          modify-Outcome R F _ _ _
            (attempt-Outcome R F _ _ (λ e. untouched) (rw late (refl, untouched)))))
    where
      F : World → Type 0
      F = Reading w

  -- The handler with no transaction open.
  late_closed :
      w.saved ≡ none
      → Outcome {A = Bool}
          (λ _ v. Untouched w v)
          (Untouched w)
          (checked_transaction_if (λ c. c) (receive_result payload) w)
  late_closed closed =
      checked_transaction_of-Outcome (λ c. c) w.tables (λ _. Untouched w) R (Reading w)
        (Untouched w) (λ a v r. r.0) (λ a v r. r.1.0) (λ a v r. r.1.1) (λ a v r e. r.1.1)
        (λ a v r e. (refl, r.1.1.1, r.1.1.2)) (λ v r. r.0) (λ v r. (refl, r.1.1, r.1.2))
        (receive_result payload) w closed (λ e. (refl, refl, refl)) (λ e. (refl, refl, refl)) refl
        late_body

  -- A second transaction of the goroutine is refused.
  late_open :
      (t : Tables)
      → w.saved ≡ some t
      → Outcome {A = Bool}
          (λ _ v. Untouched w v)
          (Untouched w)
          (checked_transaction_if (λ c. c) (receive_result payload) w)
  unfolding checked_transaction_if begin_transaction begin_unless_open exit ◌>>=◌
  late_open t is_open = rw is_open (refl, refl, refl)

  late_transaction :
      Outcome {A = Bool}
        (λ _ v. Untouched w v)
        (Untouched w)
        (checked_transaction_if (λ c. c) (receive_result payload) w)
  late_transaction = by_saved w.saved refl
    where
      by_saved :
          (o : Option Tables)
          → w.saved ≡ o
          → Outcome {A = Bool}
              (λ _ v. Untouched w v)
              (Untouched w)
              (checked_transaction_if (λ c. c) (receive_result payload) w)
      by_saved none closed = late_closed closed
      by_saved (some t) is_open = late_open t is_open

  -- A result for a step whose row is in a state that waits for none.
  pub late_result :
      Outcome {A = Unit {0}}
        (λ _ v. Untouched w v)
        (Untouched w)
        (process_saga_step_execution_result payload w)
  unfolding process_saga_step_execution_result pure
  late_result =
      bind-Outcome (λ (_ : Bool) v. Untouched w v) (λ _ v. Untouched w v) (Untouched w)
        (checked_transaction_if (λ c. c) (receive_result payload)) (λ _. pure tt) w late_transaction
        (λ _ v h. h)
