-- ===== src/Coordinator/Soundness.antt =====
-- The states in which the handlers of pkg/trax/coordinator.go leave a saga: the patterns that the
-- comment in isSagaStateValid lists, with the state of the saga that goes with each.
pub mod Shapes
pub mod Each
pub mod Held
pub mod Forward
pub mod Turn
pub mod Backward
pub mod Blocked
pub mod Starting
pub mod Candidate
pub mod Initiate
pub mod Valid
pub mod Children
pub mod Compensating
pub mod Compensate
pub mod Timeout
pub mod Inputs
pub mod Send
pub mod Request
pub mod UndoRequest
