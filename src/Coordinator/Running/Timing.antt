-- ===== src/Coordinator/Running/Timing.antt =====
-- When a running step waits, when it times out, and when its request goes out.
use trax.Prelude.{ℕ, ◌+◌, ◌<◌, ◌≤◌, ◌≡◌, Bool, if◌then◌else◌, leb, arith}
use trax.Model.{SagaStepExecutionLog}
use trax.Coordinator.Forward.{new_log}
use trax.Coordinator.Running.{waiting, timed_out, to_send, progress}

-- What send_request writes to the last log.
abbrev pub sent_at : ℕ → ℕ → SagaStepExecutionLog → SagaStepExecutionLog
sent_at now timeout log = record log {
  execution_request_sent_ts = now;
  execution_timeout_ts = now + timeout;
}

-- A new log, of an execution or of a compensation, is sent at once.
pub progress-new_log :
    (start now : ℕ) (is_compensation : Bool)
    → start ≤ now
    → progress now (new_log start is_compensation) ≡ to_send
unfolding progress new_log
progress-new_log start now is_compensation h = ground arith

-- A log that was made at one time and sent at a later one, not 0, stands from then on as waiting
-- up to and with the last moment of the timeout, and as timed out after it.
pub progress-sent_at :
    (start now later timeout : ℕ) (is_compensation : Bool)
    → 0 < now
    → start ≤ now
    → now ≤ later
    → progress later (sent_at now timeout (new_log start is_compensation))
      ≡ (if leb later (now + timeout) then waiting else timed_out)
unfolding progress new_log
progress-sent_at start now later timeout is_compensation h h' h'' = ground arith
