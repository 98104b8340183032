-- ===== src/State.antt =====
-- The enumerations of pkg/trax/const.go. The string types are data types: the database columns
-- hold the strings of the constants and no others.
use trax.Prelude.{ℕ, ◌≡◌, Bool, true, eqb, arith}

pub data SagaState : Type 0 where
  unknown running committed compensated blocked invalid_state compensation_requested paused
        cancelled :
      SagaState

pub data SagaStepState : Type 0 where
  unknown execution_pending execution_candidate execution_running execution_succeeded execution_done
        execution_failed execution_blocked execution_aborted compensation_pending
        compensation_candidate compensation_running compensation_succeeded compensation_done
        compensation_failed compensation_blocked :
      SagaStepState

pub data ExecutionResultStatus : Type 0 where
  unknown success in_execution failed retry error : ExecutionResultStatus

-- A number for each constant, by which two of them are compared.
abbrev saga_tag : SagaState → ℕ
saga_tag unknown = 0
saga_tag running = 1
saga_tag committed = 2
saga_tag compensated = 3
saga_tag blocked = 4
saga_tag invalid_state = 5
saga_tag compensation_requested = 6
saga_tag paused = 7
saga_tag cancelled = 8

abbrev step_tag : SagaStepState → ℕ
step_tag unknown = 0
step_tag execution_pending = 1
step_tag execution_candidate = 2
step_tag execution_running = 3
step_tag execution_succeeded = 4
step_tag execution_done = 5
step_tag execution_failed = 6
step_tag execution_blocked = 7
step_tag execution_aborted = 8
step_tag compensation_pending = 9
step_tag compensation_candidate = 10
step_tag compensation_running = 11
step_tag compensation_succeeded = 12
step_tag compensation_done = 13
step_tag compensation_failed = 14
step_tag compensation_blocked = 15

-- `a == b` on saga states.
abbrev pub saga_is : SagaState → SagaState → Bool
saga_is a b = eqb (saga_tag a) (saga_tag b)

-- `a == b` on step states.
abbrev pub step_is : SagaStepState → SagaStepState → Bool
step_is a b = eqb (step_tag a) (step_tag b)

-- Two step states that compare equal are equal.
pub step_is-eq : (a b : SagaStepState) → step_is a b ≡ true → a ≡ b
step_is-eq a b h = ground arith

pub saga_is-eq : (a b : SagaState) → saga_is a b ≡ true → a ≡ b
saga_is-eq a b h = ground arith

pub step_is_refl : (a : SagaStepState) → step_is a a ≡ true
step_is_refl a = ground arith

pub saga_is_refl : (a : SagaState) → saga_is a a ≡ true
saga_is_refl a = ground arith
