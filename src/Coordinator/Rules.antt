-- ===== src/Coordinator/Rules.antt =====
-- Rules for the transitions and the transactions of pkg/trax/coordinator.go.
pub mod Chain
pub mod Transitions
pub mod Zipper
pub mod Focus
pub mod Transaction
pub mod Loops
