-- ===== src/Coordinator/Soundness/Blocked.antt =====
-- The case COMPENSATION_FAILED of processSagaStep keeps a saga sound.
use trax.Store.Outcome.{Outcome}
use trax.Coordinator.Rules.Focus.{Focus}
use trax.Coordinator.Soundness.Shapes.{Backward}
