-- ===== src/Executor/System.antt =====
-- The handlers and goroutines of one executor, side by side. A job is one of them from the moment
-- it has passed the guard: the service works for it, the service has returned, or the key of the
-- job is no longer in the map and its result is to be published. A step of any job is a step of
-- the system.
use trax.Prelude.{String, ◌≡◌, Option, none, some, List, [], ◌∷◌, ◌++◌}
use trax.State.{ExecutionResultStatus}
use trax.Model.{StringMap}
use trax.Executor.{
  StatusAnswer, ServiceAnswer, Kind, execution, compensation, SagaStepRequest, ExecutorConfig,
  is_sub_saga_executor, request_key, outcome, ExecutionReport, report,
}
use trax.Executor.Guard.{
  Start, answer_now, run_here, run_detached, in_execution_now, release, start_job,
}

abbrev pub Outcome : Type 0
Outcome = ExecutionResultStatus × StringMap

pub data Phase : Type 0 where
  running : Phase
  returned : Outcome → Phase
  released : Outcome → Phase

pub record Job : Type 0 where
  pub kind : Kind
  pub request : SagaStepRequest
  pub key : String
  pub phase : Phase

pub record System : Type 0 where
  -- the keys of inFlightExec and of inFlightComp
  pub in_flight_exec : List String
  pub in_flight_comp : List String
  pub jobs : List Job
  -- the newest first
  pub published : List ExecutionReport

abbrev pub in_flight : Kind → System → List String
in_flight execution s = s.in_flight_exec
in_flight compensation s = s.in_flight_comp

abbrev pub with_in_flight : Kind → List String → System → System
with_in_flight execution keys s = record s { in_flight_exec = keys }
with_in_flight compensation keys s = record s { in_flight_comp = keys }

abbrev pub new_job : Kind → SagaStepRequest → String → Phase → Job
new_job kind r key phase = record { kind = kind; request = r; key = key; phase = phase }

-- What the guard decided is done under the mutex.
unfoldable pub admit : Kind → SagaStepRequest → String → Start → System → System
admit kind r key (answer_now o) s = record s {
  jobs = new_job kind r key (Phase.released o) ∷ s.jobs;
}
admit kind r key run_here s =
    with_in_flight kind (key ∷ in_flight kind s)
      (record s { jobs = new_job kind r key Phase.running ∷ s.jobs })
admit kind r key run_detached s = with_in_flight kind (key ∷ in_flight kind s) (record s {
  jobs =
      new_job kind r key Phase.running
      ∷ new_job kind r key (Phase.released in_execution_now)
      ∷ s.jobs;
})

-- A message with its first payload, if it has one.
pub data Incoming : Type 0 where
  empty unknown_payload : Incoming
  request : Kind → Option SagaStepRequest → Incoming

-- The callback of the consumer up to the call of the service. `a` is the answer of the service on
-- the status of the key.
unfoldable pub receive : ExecutorConfig → Incoming → StatusAnswer → System → System
unfolding admit start_job request_key is_sub_saga_executor
receive c empty a s = s
receive c unknown_payload a s = s
receive c (request kind none) a s = s
receive c (request kind (some r)) a s =
    admit kind r (request_key c r)
      (start_job kind (is_sub_saga_executor c) (in_flight kind s) (request_key c r) a) s

abbrev pub in_phase : Phase → Job → Job
in_phase phase j = record j { phase = phase }

abbrev pub with_jobs : List Job → System → System
with_jobs jobs s = record s { jobs = jobs }

pub data Step (c : ExecutorConfig) : System → System → Type 0 where
  receives : (m : Incoming) (a : StatusAnswer) (s : System) → Step c s (receive c m a s)
  -- ExecuteSync or CompensateSync returns
  returns :
      (before : List Job) (j : Job) (after : List Job) (a : ServiceAnswer) (s : System)
      → s.jobs ≡ before ++ j ∷ after
      → j.phase ≡ running
      → Step c s (with_jobs (before ++ in_phase (returned (outcome j.kind j.key a)) j ∷ after) s)
  -- `delete(e.inFlightExec, key)` or `delete(e.inFlightComp, key)`
  releases :
      (before : List Job) (j : Job) (after : List Job) (o : Outcome) (s : System)
      → s.jobs ≡ before ++ j ∷ after
      → j.phase ≡ returned o
      → Step c s (
          with_in_flight j.kind
            (release j.key (in_flight j.kind s))
            (with_jobs (before ++ in_phase (released o) j ∷ after) s))
  publishes :
      (before : List Job) (j : Job) (after : List Job) (o : Outcome) (s : System)
      → s.jobs ≡ before ++ j ∷ after
      → j.phase ≡ released o
      → Step c s
          (record s { jobs = before ++ after; published = report c j.request o ∷ s.published })
  fails_to_publish :
      (before : List Job) (j : Job) (after : List Job) (o : Outcome) (s : System)
      → s.jobs ≡ before ++ j ∷ after
      → j.phase ≡ released o
      → Step c s (with_jobs (before ++ after) s)
  -- the process ends, and a new one begins with empty maps
  restarts :
      (s : System) → Step c s (record s { in_flight_exec = []; in_flight_comp = []; jobs = [] })

abbrev pub new_executor : System
new_executor = record { in_flight_exec = []; in_flight_comp = []; jobs = []; published = [] }

pub data Reach (c : ExecutorConfig) : System → Type 0 where
  begins : Reach c new_executor
  goes_on : {s t : System} → Reach c s → Step c s t → Reach c t
