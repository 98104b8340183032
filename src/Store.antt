-- ===== src/Store.antt =====
-- What one run of a coordinator's handler works on, and the effects it has: the tables of one
-- cluster as pkg/trax/store_psql.go reads and writes them, the transaction of the running
-- goroutine, the messages sent, and the handler's own copies of the saga and of the step.
--
-- PostgreSQL, RabbitMQ, the clock and the random source are not part of the repository. They
-- enter as an environment that says of each call whether it fails. A call that fails changes
-- nothing, but for a commit, which may have taken effect although its answer was lost.
pub mod Rows
pub mod Calls
pub mod Saving
pub mod Laws
pub mod Outcome
pub mod Quiet
use trax.Prelude.{ℕ, suc, String, Bool, Option, none, some, List, if◌then◌else◌}
use trax.Model.{SagaInstance, SagaStepInstance, StringMap}

-- The rows of `…_saga_instances` and `…_saga_step_instances` of one cluster.
pub record Tables : Type 0 where
  pub sagas : List SagaInstance
  pub steps : List SagaStepInstance

pub record Environment : Type 0 where
  -- does the call with this number fail
  pub fails : ℕ → Bool
  -- does a commit take effect whose answer is an error
  pub lands : ℕ → Bool
  -- time.Now().UnixMilli()
  pub clock : ℕ → ℕ
  -- common.SecureRandomString(32)
  pub random : ℕ → String

-- A message to the step exchange, with what its receiver acts on.
pub record StepRequest : Type 0 where
  pub exchange : String
  pub routing_key : String
  pub is_compensation : Bool
  pub trace_id : String
  pub execution_id : String
  pub origin : String
  pub origin_idempotency_key : String
  pub saga_submitter_id : String
  pub saga_instance_id : String
  pub saga_step_instance_id : String
  pub zone_id : String
  pub coordinator_affinity : String
  pub input : StringMap
  pub metadata : StringMap
  pub root_saga_instance_id : String
  pub saga_depth : ℕ

pub record World : Type 0 where
  pub env : Environment
  -- the number of calls made so far
  pub calls : ℕ
  -- the fields of the coordinator that its handlers read
  pub affinity_group : String
  pub execution_timeout_ms : ℕ
  pub tables : Tables
  -- the tables at the begin of the open transaction
  pub saved : Option Tables
  -- the newest message first
  pub published : List StepRequest
  -- the goroutines `processStepWithMutex` that were started: saga and step
  pub spawned : List (String × String)
  -- what `sagaInstance` and `sagaStepInstance` point to
  pub saga : SagaInstance
  pub step : SagaStepInstance

-- How a handler ends. `stop` is a return with no follow-up (of the result handler: with an
-- error); `invalidate` sets `mustInvalidateSagaInstance` first; `hangs` is a loop without an end.
pub data Exit {ℓ} (A : Type ℓ) : Type ℓ where
  ok : A → Exit A
  stop invalidate panicked hangs : Exit A

abbrev pub M {ℓ} : Type ℓ → Type ℓ
M A = World → Exit A × World

abbrev pub continue {ℓ κ} : {A : Type ℓ} {B : Type κ} → Exit A → (A → M B) → M B
continue (ok a) f w = f a w
continue stop f w = (stop, w)
continue invalidate f w = (invalidate, w)
continue panicked f w = (panicked, w)
continue hangs f w = (hangs, w)

infixl 5 ◌>>=◌ ◌>>◌
unfoldable pub ◌>>=◌ {ℓ κ} : {A : Type ℓ} {B : Type κ} → M A → (A → M B) → M B
◌>>=◌ m f w = continue (m w).0 f (m w).1

abbrev pub ◌>>◌ {ℓ} : {B : Type ℓ} → M (Unit {0}) → M B → M B
m >> k = m >>= λ _. k

module _ {ℓ} {A : Type ℓ} where
  unfoldable pub pure : A → M A
  pure a w = (ok a, w)

  unfoldable pub exit : Exit A → M A
  exit e w = (e, w)

  unfoldable pub gets : (World → A) → M A
  gets f w = (ok (f w), w)

unfoldable pub modify : (World → World) → M (Unit {0})
modify f w = (ok tt, f w)

-- An error that is only logged.
abbrev forgive : Exit (Unit {0}) → Exit (Unit {0})
forgive stop = ok tt
forgive e = e

unfoldable pub ignore : M (Unit {0}) → M (Unit {0})
ignore m w = (forgive (m w).0, (m w).1)

abbrev optional {ℓ} : {A : Type ℓ} → Exit A → Exit (Option A)
optional (ok a) = ok (some a)
optional stop = ok none
optional invalidate = invalidate
optional panicked = panicked
optional hangs = hangs

-- An error that the code goes on without.
unfoldable pub try {ℓ} : {A : Type ℓ} → M A → M (Option A)
try m w = (optional (m w).0, (m w).1)

-- A call of the database, of the message queue or of a context with a deadline.
unfoldable pub attempt : M (Unit {0})
attempt w = (if w.env.fails w.calls then stop else ok tt, record w { calls = suc w.calls })

unfoldable pub time_now : M ℕ
time_now w = (ok (w.env.clock w.calls), record w { calls = suc w.calls })

unfoldable pub secure_random_string : M String
secure_random_string w = (ok (w.env.random w.calls), record w { calls = suc w.calls })

-- A row that is there, or the error of the lookup.
abbrev pub found {ℓ} : {A : Type ℓ} → Option A → M A
found none = exit stop
found (some a) = pure a
