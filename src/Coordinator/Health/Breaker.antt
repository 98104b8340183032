-- ===== src/Coordinator/Health/Breaker.antt =====
-- When the circuit breaker is open.
use trax.Prelude.{ℕ, ◌≡◌, refl, Bool, true, ◌&&◌, List, [], ◌∷◌, arith, ltb}
use trax.Coordinator.Health.{DbHealth, record_database_error, check_database_health, is_ready}

-- What happens to the breaker: an error of an operation, or a health check with its result.
pub data DbEvent : Type 0 where
  operation_failed : ℕ → DbEvent
  health_checked : Bool → ℕ → ℕ → DbEvent

unfoldable pub on_event : ℕ → DbEvent → DbHealth → DbHealth
unfolding record_database_error check_database_health
on_event interval (operation_failed now) h = record_database_error now h
on_event interval (health_checked fails checked now) h =
    check_database_health interval fails checked now h

unfoldable pub after_events : ℕ → List DbEvent → DbHealth → DbHealth
unfolding on_event
after_events interval [] h = h
after_events interval (e ∷ events) h = after_events interval events (on_event interval e h)

-- The coordinator of NewSagaCoordinator.
abbrev pub new_health : DbHealth
new_health = record {
  db_healthy = true;
  consecutive_db_errors = 0;
  last_db_error_time = 0;
  last_health_check_time = 0;
}

abbrev pub Synced : DbHealth → Type 0
Synced h = h.db_healthy ≡ ltb h.consecutive_db_errors 3

on_event-Synced :
    (interval : ℕ) (e : DbEvent) (h : DbHealth) → Synced h → Synced (on_event interval e h)
unfolding on_event record_database_error check_database_health
on_event-Synced interval (operation_failed now) h s = ground arith
on_event-Synced interval (health_checked fails checked now) h s = ground arith

after_events-Synced :
    (interval : ℕ) (events : List DbEvent) (h : DbHealth)
    → Synced h
    → Synced (after_events interval events h)
unfolding after_events
after_events-Synced interval [] h s = s
after_events-Synced interval (e ∷ events) h s =
    after_events-Synced interval events (on_event interval e h) (on_event-Synced interval e h s)

-- After any sequence of errors and health checks, a new coordinator is ready exactly if it runs,
-- fewer than three errors in a row are counted, and the message queue is healthy.
pub is_ready-after_events :
    (interval : ℕ) (events : List DbEvent) (is_running mq_healthy : Bool)
    → is_ready is_running mq_healthy (after_events interval events new_health) ≡ (
        is_running
        && ltb (after_events interval events new_health).consecutive_db_errors 3
        && mq_healthy)
unfolding is_ready
is_ready-after_events interval events is_running mq_healthy =
    rw (after_events-Synced interval events new_health refl) refl
