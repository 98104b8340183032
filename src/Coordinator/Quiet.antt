-- ===== src/Coordinator/Quiet.antt =====
-- The actions of a handler that send no message.
pub mod Handlers
pub mod Rounds
use trax.Prelude.{
  ◌≡◌, refl, ◌∙◌, String, arith, suc, if◌then◌else◌, true, false, Bool, Bool-cases, inl, inr,
  Option, none, some, List, [], ◌∷◌, get_last?,
}
use trax.State.{SagaState, SagaStepState}
use trax.Model.{SagaInstance, SagaStepInstance}
use trax.Sequence.{order_saga_steps_in_sequence}
use trax.Validation.{Position, locate}
use trax.Store.{
  Tables, World, Exit, ok, stop, invalidate, panicked, hangs, M, pure, exit, gets, modify, ignore,
  ◌>>=◌, ◌>>◌,
}
use trax.Store.Calls.{
  query, execute, on_tables, update_saga_state, update_saga_step_state,
  update_saga_step_execution_history, get_saga_instance, get_saga_step_instance,
  list_saga_step_instances, begin_unless_open, begin_transaction, commit_open, commit_transaction,
  rollback_transaction, finish_transaction,
}
use trax.Store.Quiet.{
  Quiet-attempt, After, After-refl, After-trans, Quiet, Quiet-bind, Quiet-pure, Quiet-exit,
  quiet_rules,
}
use trax.Store.Quiet.Calls.{query-Quiet, execute-Quiet, call_rules}
use trax.Store.Quiet.Transaction.{begin_transaction-Quiet, commit_transaction-Quiet, rollback-After}
use trax.Coordinator.Transit.{
  confirm_saga, confirm_step, transit_saga_to_state, transit_saga_step_to_state,
  transit_current_step, transit_each, mark_saga_invalid, transaction_if, checked_transaction_if,
  transaction, ordered_steps, ordered_or_hang, position_or, current_position, give_up_saga,
  or_rollback,
}

confirm_saga-Quiet :
    (target : SagaState) (row : Option SagaInstance) → Quiet (confirm_saga target row)
unfolding confirm_saga
confirm_saga-Quiet target none = search call_rules
confirm_saga-Quiet target (some s) = search call_rules

pub transit_saga-Quiet : (target : SagaState) → Quiet (transit_saga_to_state target)
unfolding transit_saga_to_state
transit_saga-Quiet target = search (call_rules, confirm_saga-Quiet)

confirm_step-Quiet :
    (target : SagaStepState) (row : Option SagaStepInstance) → Quiet (confirm_step target row)
unfolding confirm_step
confirm_step-Quiet target none = search call_rules
confirm_step-Quiet target (some s) = search call_rules

pub transit_step-Quiet :
    (step : SagaStepInstance) (target : SagaStepState)
    → Quiet (transit_saga_step_to_state step target)
unfolding transit_saga_step_to_state
transit_step-Quiet step target = search (call_rules, confirm_step-Quiet)

pub transit_current-Quiet : (target : SagaStepState) → Quiet (transit_current_step target)
unfolding transit_current_step
transit_current-Quiet target = search (call_rules, transit_step-Quiet)

ordered_or_hang-Quiet : (o : Option (List SagaStepInstance)) → Quiet (ordered_or_hang o)
ordered_or_hang-Quiet none = search call_rules
ordered_or_hang-Quiet (some steps) = search call_rules

pub ordered_steps-Quiet : Quiet ordered_steps
unfolding ordered_steps
ordered_steps-Quiet = search (call_rules, ordered_or_hang-Quiet)

position_or-Quiet :
    (lost : M Position) (o : Option Position) → Quiet lost → Quiet (position_or lost o)
position_or-Quiet lost none h = h
position_or-Quiet lost (some p) h = search call_rules

pub current_position-Quiet : (lost : M Position) → Quiet lost → Quiet (current_position lost)
unfolding current_position
current_position-Quiet lost h = search (call_rules, ordered_steps-Quiet, position_or-Quiet)

or_rollback-After : (e : Exit (Unit {0})) (w v : World) → After w v → After w (or_rollback (e, v)).1
or_rollback-After (ok a) w v h = h
or_rollback-After stop w v h = rollback-After w v h
or_rollback-After invalidate w v h = rollback-After w v h
or_rollback-After panicked w v h = rollback-After w v h
or_rollback-After hangs w v h = rollback-After w v h

Quiet-or_rollback : (m : M (Unit {0})) → Quiet m → Quiet (λ w. or_rollback (m w))
Quiet-or_rollback m h = record { at = λ w. or_rollback-After (m w).0 w (m w).1 (h.at w) }

mark_saga_invalid-Quiet : Quiet mark_saga_invalid
unfolding mark_saga_invalid
mark_saga_invalid-Quiet = search (
  call_rules, begin_transaction-Quiet, transit_saga-Quiet, commit_transaction-Quiet,
  Quiet-or_rollback,
)

module _ {ℓ} {A : Type ℓ} (keeps : A → Bool) where
  finish-After :
      (e : Exit A) (w v : World)
      → After w v
      → After w (finish_transaction keeps mark_saga_invalid (e, v)).1
  unfolding finish_transaction
  finish-After (ok a) w v h = committed_if (keeps a)
    where
      committed_if :
          (b : Bool)
          → After w
              (if b then (do commit_transaction; pure a) v else (ok a, rollback_transaction v)).1
      committed_if true =
          After-trans w v _ h ((Quiet-bind _ _ commit_transaction-Quiet (λ _. Quiet-pure a)).at v)
      committed_if false = rollback-After w v h
  finish-After stop w v h = rollback-After w v h
  finish-After invalidate w v h =
      let rolled = rollback-After w v h in
      After-trans w _ _ rolled
        ((Quiet-bind _ _ mark_saga_invalid-Quiet (λ _. Quiet-exit stop)).at _)
  finish-After panicked w v h = rollback-After w v h
  finish-After hangs w v h = h

  pub transaction_if-Quiet : (body : M A) → Quiet body → Quiet (transaction_if keeps body)
  unfolding transaction_if
  transaction_if-Quiet body h =
      Quiet-bind _ _ begin_transaction-Quiet
        (λ _. record { at = λ w. finish-After (body w).0 w (body w).1 (h.at w) })

  pub checked_transaction_if-Quiet :
      (body : M A) → Quiet body → Quiet (checked_transaction_if keeps body)
  unfolding checked_transaction_if
  checked_transaction_if-Quiet body h = Quiet-bind _ _ begin_transaction-Quiet (λ _.
      Quiet-bind _ _ Quiet-attempt
        (λ _. record { at = λ w. finish-After (body w).0 w (body w).1 (h.at w) }))

module _ {ℓ} {A : Type ℓ} where
  pub transaction-Quiet : (body : M A) → Quiet body → Quiet (transaction body)
  unfolding transaction
  transaction-Quiet body h = transaction_if-Quiet (λ a. true) body h

pub transit_each-Quiet :
    (steps : List SagaStepInstance) (target : SagaStepState) → Quiet (transit_each steps target)
unfolding transit_each
transit_each-Quiet [] target = search call_rules
transit_each-Quiet (s ∷ steps) target =
    search (call_rules, transit_step-Quiet, transit_each-Quiet steps)

pub give_up_saga-Quiet {ℓ} : {A : Type ℓ} → Quiet (give_up_saga {A = A})
unfolding give_up_saga
give_up_saga-Quiet = search (call_rules, transit_saga-Quiet)

pub ruleset transition_rules = (
  call_rules, transit_saga-Quiet, transit_step-Quiet, transit_current-Quiet, transit_each-Quiet,
  ordered_steps-Quiet, current_position-Quiet, give_up_saga-Quiet, transaction-Quiet,
)
