-- ===== src/Coordinator/Health.antt =====
-- The circuit breaker of the database and IsReady of pkg/trax/coordinator.go. The fields are those
-- of the coordinator that these methods read and write, times in milliseconds.
pub mod Breaker
use trax.Prelude.{ℕ, suc, ◌-◌, Bool, true, false, not, ◌&&◌, ltb, leb, if◌then◌else◌}

pub record DbHealth : Type 0 where
  pub db_healthy : Bool
  pub consecutive_db_errors : ℕ
  pub last_db_error_time : ℕ
  pub last_health_check_time : ℕ

-- One more error in a row: the third and later ones open the circuit breaker.
unfoldable pub record_database_error : ℕ → DbHealth → DbHealth
record_database_error now h = record h {
  consecutive_db_errors = suc h.consecutive_db_errors;
  last_db_error_time = now;
  db_healthy = if leb 3 (suc h.consecutive_db_errors) && h.db_healthy then false else h.db_healthy;
}

-- `fails` is the result of the health check of the store, if it is made. `checked` and `now` are
-- the two readings of the clock around it.
unfoldable pub check_database_health : ℕ → Bool → ℕ → ℕ → DbHealth → DbHealth
unfolding record_database_error
check_database_health interval fails checked now h =
    if ltb (checked - h.last_health_check_time) interval
    then h
    else if fails
    then record_database_error now (record h { last_health_check_time = checked })
    else record h { last_health_check_time = checked; db_healthy = true; consecutive_db_errors = 0 }

unfoldable pub is_ready : Bool → Bool → DbHealth → Bool
is_ready is_running mq_healthy h = is_running && h.db_healthy && mq_healthy
