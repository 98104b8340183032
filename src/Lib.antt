-- ===== src/Lib.antt =====
-- The saga coordinator of trax, pkg/trax/coordinator.go with the parts of pkg/trax/store_psql.go,
-- types.go, const.go, common.go and messages.go that it works on, and its clients: the executors of
-- steps, pkg/trax/executor.go, and the submitters of sagas, pkg/trax/submitter.go.
--
-- A saga is a chain of steps. The coordinator runs them one after another: a step becomes a
-- candidate, is running while an executor works on it, has succeeded, and is done, whereupon the
-- next one becomes a candidate. When a step fails, the later ones are aborted and the earlier ones
-- compensated one by one, last first. Goroutines that poll the database, goroutines that a result
-- starts and the handler of results all work on the rows of the database, under a mutex for each
-- saga and in transactions.
--
-- The modules and the code that they are about:
--   State        the enumerations of pkg/trax/const.go
--   Model        the instances of pkg/trax/types.go; maps as lists of entries (Model/Maps)
--   Names        the keys and names of pkg/trax/common.go
--   Sequence     OrderSagaStepsInSequence, getPreviousStepsInOrder
--   Validation   isSagaStateValid, validateNonCompensatingMode, validateCompensatingMode
--   Store        the state that a handler works on and its effects; Store/Rows: the SQL statements
--                of pkg/trax/store_psql.go on lists of rows; Store/Calls: the methods of the store,
--                BeginTransaction, CommitTransaction and RollbackTransaction
--   Coordinator  Transit: transitSagaToState, transitSagaStepToState and the transactions with
--                their deferred functions; Forward, Running, Backward: the cases of
--                processSagaStep; Reason: extractCompensationReason; Initiate:
--                initiateCompensationForCommittedSaga; Process: processSagaStep, its loop, the
--                goroutines of processSagaSteps and processStepWithMutex; Result:
--                processSagaStepExecutionResult (Kept: awaited results; Late, Repeated: those that
--                come too late); Submission: the handler of saga submissions that
--                followSagaSubmitterIfNeeded registers; Health: the circuit breaker and IsReady;
--                Reload: reloadSagaTemplates and handleTemplateDeleted
--   Executor     pkg/trax/executor.go: Guard: what the maps of keys in flight make of a request;
--                System: the handlers and goroutines of one executor, side by side; Exclusion: what
--                holds in every state; Configuration: pkg/trax/step_configuration.go
--   KeyedLock    pkg/cache/pgsql_keyed_lock.go, its statements on rows: Acquiring, Protection
--   Submitter    pkg/trax/submitter.go: announcements and consumers (Consumers, Readiness, Backoff),
--                SubmitSaga and SubmitSubSaga (Submitting; Fulfilled: what a coordinator makes of
--                their messages),
--                waiting for a saga (Waiting, with the polling of pkg/trax/sub_saga_executor.go) and
--                the outputs of its steps (Outputs)
--   Coordinator/Rules      what each action of a handler does to the rows that it holds
--   Coordinator/Soundness  the pictures in which a saga stands (Shapes), and the handlers that keep
--                          a saga in them
--   Coordinator/Quiet      the actions and handlers that send no message, by one rule for each way to
--                          build an action (Store/Quiet)
--   Coordinator/Course     the goroutines that drive a saga, one after the other, from a candidate to
--                          its end, in an environment in which no call fails
--   Scenario     a saga of two steps, submissions, results, reloads, an executor, locks and a
--                submitter, at which the theorems are applied
--
-- PostgreSQL, RabbitMQ, the lock service, the clock and the random source are not in the repository.
-- They are an environment, a parameter of every run, that says of each call by its number whether it
-- fails; a call that fails changes nothing, but a commit that reports an error may have taken
-- effect, and a read that breaks off is reported as an error, although the two listings of rows do
-- not check for it (rows.Err). A handler is a function from a world to its exit and the world it
-- leaves: `ok`, `stop` (a return with no follow-up, or an error), `invalidate`
-- (mustInvalidateSagaInstance is set), `panicked` and `hangs`.
--
-- Bounds and fuel: the loop of OrderSagaStepsInSequence has the number of steps as its fuel, since a
-- walk that is longer has come back to a step and does not end in the program either; the model says
-- `hangs` there. The loop of processSagaStep has the program's own bound of 11 rounds. Times are
-- milliseconds as natural numbers; 64 bits of them are not exhausted.
--
-- Left out: log lines, notifications, creation and update times, the constant fields of messages.
-- The runs of handlers on one saga are taken one at a time, as the mutex of the saga and the
-- transactions are there to make them. Not modelled: the rest of the store, the in-memory store,
-- the start and stop of the coordinator and, as input and output, the clients of the queue and the
-- cache, the daemons and the command line.
mod Prelude
pub mod State
pub mod Model
pub mod Sequence
pub mod Store
pub mod Names
pub mod Validation
pub mod Coordinator
pub mod Executor
pub mod KeyedLock
pub mod Submitter
mod Scenario
