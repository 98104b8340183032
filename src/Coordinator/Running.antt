-- ===== src/Coordinator/Running.antt =====
-- The cases EXECUTION_RUNNING and COMPENSATION_RUNNING of processSagaStep in
-- pkg/trax/coordinator.go: waiting, the timeout, and the request to the executor.
pub mod Timing
use trax.Prelude.{
  ℕ, ◌+◌, String, Bool, true, false, Option, none, some, List, [], ◌∷◌, ◌==◌, ◌&&◌, ltb, leb, eqb,
  get_last?, if◌then◌else◌,
}
use trax.State.{
  SagaStepState, step_is, execution_done, execution_failed, execution_blocked, compensation_failed,
  compensation_done,
}
use trax.Model.{SagaStepInstance, SagaStepExecutionLog, StringMap, map_put_all}
use trax.Store.{
  StepRequest, World, M, exit, invalidate, panicked, hangs, pure, gets, modify, ignore, try,
  attempt, time_now, ◌>>=◌, ◌>>◌,
}
use trax.Store.Calls.{update_saga_step_execution_history, list_saga_step_instances}
use trax.Names.{get_step_topic_exchange_name, get_step_request_routing_key}
use trax.Sequence.{order_saga_steps_in_sequence, get_previous_steps_in_order}
use trax.Validation.{Position, locate}
use trax.Coordinator.Transit.{transit_current_step, transaction, give_up_saga}

-- An assignment to the fields of the last entry.
unfoldable pub update_last :
    (SagaStepExecutionLog → SagaStepExecutionLog)
    → List SagaStepExecutionLog
    → List SagaStepExecutionLog
update_last f [] = []
update_last f (log ∷ []) = f log ∷ []
update_last f (log ∷ next ∷ history) = log ∷ update_last f (next ∷ history)

unfoldable pub update_last_log : (SagaStepExecutionLog → SagaStepExecutionLog) → M (Unit {0})
unfolding update_last
update_last_log f = modify λ w. record w {
  step = record w.step { execution_history = update_last f w.step.execution_history };
}

-- How the last log of a running step stands at a time, in the order of the tests.
pub data Progress : Type 0 where
  waiting overtaken timed_out to_send unexpected : Progress

abbrev due : ℕ → SagaStepExecutionLog → Bool
due now log = leb log.next_execution_ts now

abbrev sent : ℕ → SagaStepExecutionLog → Bool
sent now log = ltb 0 log.execution_request_sent_ts && leb log.execution_request_sent_ts now

abbrev in_time : ℕ → SagaStepExecutionLog → Bool
in_time now log = ltb 0 log.execution_timeout_ts && leb now log.execution_timeout_ts

abbrev late : ℕ → SagaStepExecutionLog → Bool
late now log = ltb 0 log.execution_timeout_ts && ltb log.execution_timeout_ts now

-- `overtaken` is the panic: the result was received and the step is still running.
unfoldable pub progress : ℕ → SagaStepExecutionLog → Progress
progress now log =
    if due now log && sent now log && in_time now log
    then (if eqb log.execution_result_received_ts 0
        then waiting
        else if leb log.execution_result_received_ts now
        then overtaken
        else unexpected)
    else if due now log && sent now log && late now log
    then timed_out
    else if due now log && eqb log.execution_request_sent_ts 0 && eqb log.execution_timeout_ts 0
    then to_send
    else unexpected

-- The timeout: the log is concluded and the step fails.
unfoldable pub fail_on_timeout : ℕ → SagaStepState → M Bool
unfolding update_last_log
fail_on_timeout now failed = do
  transaction do
    update_last_log (λ log. record log { log_conclusion_ts = now })
    step ← gets (λ w. w.step)
    update_saga_step_execution_history step
    transit_current_step failed
  pure true

-- The results of the previous steps, all of them done, over the input of the saga.
unfoldable pub collect_results : StringMap → List SagaStepInstance → M StringMap
collect_results input [] = pure input
collect_results input (s ∷ steps) =
    if step_is s.state execution_done
    then collect_results (map_put_all input s.result) steps
    else exit invalidate

abbrev pub or_hang : Option (List SagaStepInstance) → M (List SagaStepInstance)
or_hang none = exit hangs
or_hang (some steps) = pure steps

unfoldable pub execution_input : M StringMap
unfolding collect_results
execution_input = do
  saga ← gets (λ w. w.saga)
  steps ← list_saga_step_instances saga.instance_id
  step ← gets (λ w. w.step)
  previous ← or_hang (get_previous_steps_in_order steps step)
  collect_results saga.input previous

-- Layer 2: the forward results up to the current step, in a saga that has it; of all steps in one
-- that does not.
unfoldable pub forward_results : String → StringMap → List SagaStepInstance → StringMap
forward_results id input [] = input
forward_results id input (s ∷ steps) =
    let found = map_put_all input s.result in
    let rest = forward_results id found steps in if s.instance_id == id then found else rest

-- Layer 3: the compensation results of the steps after the current one.
unfoldable pub compensation_results : StringMap → List SagaStepInstance → StringMap
compensation_results input [] = input
compensation_results input (s ∷ steps) =
    compensation_results
      (if step_is s.state compensation_done then map_put_all input s.compensation_result else input)
      steps

-- Layer 3 over what the layers below it gave.
abbrev pub over_later : StringMap → Option Position → StringMap
over_later forward none = forward
over_later forward (some p) = compensation_results forward p.after

unfoldable pub enriched_input : String → StringMap → List SagaStepInstance → StringMap
unfolding forward_results compensation_results
enriched_input id input ordered = over_later (forward_results id input ordered) (locate id ordered)

-- Without the steps the request goes out with the input of the saga alone.
unfoldable pub compensation_input : M StringMap
unfolding enriched_input
compensation_input = do
  saga ← gets (λ w. w.saga)
  step ← gets (λ w. w.step)
  listed ← try (list_saga_step_instances saga.instance_id)
  elim listed [
    | none ↦ pure saga.input
    | some steps ↦ do
      ordered ← or_hang (order_saga_steps_in_sequence steps)
      pure (enriched_input step.instance_id saga.input ordered)
  ]

-- The message of a request. Its constant parts (issuer, session, content type) are left out.
unfoldable pub step_request : World → Bool → StringMap → StepRequest
unfolding get_step_topic_exchange_name get_step_request_routing_key
step_request w is_compensation input = record {
  exchange = get_step_topic_exchange_name w.saga.cluster_id;
  routing_key =
      get_step_request_routing_key w.saga.cluster_id w.affinity_group w.saga.saga_template_id
        w.step.saga_step_template_id;
  is_compensation = is_compensation;
  trace_id = w.saga.trace_id;
  execution_id = w.step.execution_id;
  origin = w.saga.origin;
  origin_idempotency_key = w.saga.origin_idempotency_key;
  saga_submitter_id = w.saga.saga_submitter_id;
  saga_instance_id = w.saga.instance_id;
  saga_step_instance_id = w.step.instance_id;
  zone_id = w.saga.zone_id;
  coordinator_affinity = w.affinity_group;
  input = input;
  metadata = w.step.metadata;
  root_saga_instance_id = w.saga.root_saga_instance_id;
  saga_depth = w.saga.saga_depth;
}

-- PublishToTopicExchange. A message that was sent stays sent when the transaction is rolled back.
unfoldable pub publish_request : Bool → StringMap → M (Unit {0})
unfolding step_request
publish_request is_compensation input = do
  attempt
  modify (λ w. record w { published = step_request w is_compensation input ∷ w.published })

unfoldable pub send_request : Bool → M StringMap → M Bool
unfolding publish_request update_last_log
send_request is_compensation input_of = do
  transaction do
    input ← input_of
    publish_request is_compensation input
    now ← time_now
    timeout ← gets (λ w. w.execution_timeout_ms)
    update_last_log (λ log. record log {
      execution_request_sent_ts = now;
      execution_timeout_ts = now + timeout;
    })
    step ← gets (λ w. w.step)
    update_saga_step_execution_history step
  pure false

-- The branches on how the last log stands.
unfoldable pub execution_progressed : ℕ → Progress → M Bool
execution_progressed now waiting = pure false
execution_progressed now overtaken = exit panicked
execution_progressed now timed_out = fail_on_timeout now execution_failed
execution_progressed now to_send = send_request false execution_input
execution_progressed now unexpected = pure false

-- A running step without logs is blocked.
unfoldable pub running_with : Option SagaStepExecutionLog → M Bool
unfolding execution_progressed progress
running_with none = do ignore (transit_current_step execution_blocked); pure false
running_with (some log) = do now ← time_now; execution_progressed now (progress now log)

unfoldable pub process_execution_running : M Bool
unfolding running_with
process_execution_running = do
  step ← gets (λ w. w.step)
  running_with (get_last? step.execution_history)

unfoldable pub compensation_progressed : ℕ → Progress → M Bool
compensation_progressed now waiting = pure false
compensation_progressed now overtaken = exit panicked
compensation_progressed now timed_out = fail_on_timeout now compensation_failed
compensation_progressed now to_send = send_request true compensation_input
compensation_progressed now unexpected = pure false

-- Without a log, or with one of an execution, the saga is given up.
unfoldable pub compensation_running_with : Option SagaStepExecutionLog → M Bool
unfolding compensation_progressed progress
compensation_running_with none = give_up_saga
compensation_running_with (some log) = do
  now ← time_now
  if log.is_compensation then compensation_progressed now (progress now log) else give_up_saga

unfoldable pub process_compensation_running : M Bool
unfolding compensation_running_with
process_compensation_running = do
  step ← gets (λ w. w.step)
  compensation_running_with (get_last? step.execution_history)
