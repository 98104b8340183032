-- ===== src/Coordinator/Soundness/Valid.antt =====
-- isSagaStateValid accepts the sound sagas that are under way.
use trax.Prelude.{
  String, ◌≡◌, refl, ap, ◌∙◌, inl, inr, true, false, Bool-cases, some, List, [], ◌∷◌, ◌++◌, All,
}
use trax.State.{
  SagaStepState, execution_done, execution_aborted, compensation_pending, execution_candidate,
  execution_running, execution_succeeded, execution_failed, compensation_candidate,
  compensation_running, compensation_succeeded, compensation_failed,
}
use trax.Model.{SagaStepInstance}
use trax.Store.{Tables}
use trax.Validation.{
  is_forward, is_compensation_state, any_compensation, states, valid_at, ordered_steps_valid,
  locate,
}
use trax.Validation.Patterns.{
  Each, PendingButOne, CompensatedThenAborted, validate_non_compensating_mode_iff,
  validate_compensating_mode_iff,
}
use trax.Coordinator.Rules.Chain.{Chain, Distinct-at, locate_lem}
use trax.Coordinator.Soundness.Shapes.{
  Are, Waiting, Undone, ForwardHere, BackwardHere, Forward, Backward,
}

forward_here :
    (s : SagaStepInstance) (state : SagaStepState)
    → ForwardHere s state
    → (is_forward state ≡ true) × (is_compensation_state state ≡ false)
unfolding is_forward is_compensation_state
forward_here s execution_candidate h = (refl, refl)
forward_here s execution_running h = (refl, refl)
forward_here s execution_succeeded h = (refl, refl)
forward_here s execution_failed h = (refl, refl)
forward_here s _ h = absurd h

Each-states :
    (state : SagaStepState) (steps : List SagaStepInstance)
    → Are state steps
    → Each state (states steps)
Each-states state [] h = tt
Each-states state (s ∷ steps) h = (h.0, Each-states state steps h.1)

backward_here :
    (s : SagaStepInstance) (state : SagaStepState)
    → BackwardHere s state
    → is_compensation_state state ≡ true
unfolding is_compensation_state
backward_here s compensation_candidate h = refl
backward_here s compensation_running h = refl
backward_here s compensation_succeeded h = refl
backward_here s compensation_failed h = refl
backward_here s _ h = absurd h

-- Steps in a state that is none of a compensation do not count.
any_skip :
    (state : SagaStepState) (steps rest : List SagaStepInstance)
    → is_compensation_state state ≡ false
    → Are state steps
    → any_compensation (states (steps ++ rest)) ≡ any_compensation (states rest)
unfolding any_compensation
any_skip state [] rest e h = refl
any_skip state (s ∷ steps) rest e h = rw (h.0, e) (any_skip state steps rest e h.1)

any_none :
    (steps : List SagaStepInstance) → All Waiting steps → any_compensation (states steps) ≡ false
unfolding any_compensation is_compensation_state
any_none [] h = refl
any_none (s ∷ steps) h = rw h.0.0 (any_none steps h.1)

any_found :
    (before : List SagaStepInstance) (here : SagaStepInstance) (after : List SagaStepInstance)
    → is_compensation_state here.state ≡ true
    → any_compensation (states (before ++ here ∷ after)) ≡ true
unfolding any_compensation
any_found [] here after e = rw e refl
any_found (s ∷ before) here after e = elim (Bool-cases (is_compensation_state s.state)) [
  | inl c ↦ rw c refl
  | inr c ↦ rw c (any_found before here after e)
]

Waiting-pending : (steps : List SagaStepInstance) → All Waiting steps → PendingButOne (states steps)
Waiting-pending [] h = tt
Waiting-pending (s ∷ steps) h = inl (h.0.0, Waiting-pending steps h.1)

Undone-aborted :
    (steps : List SagaStepInstance) → Undone steps → CompensatedThenAborted (states steps)
unfolding is_compensation_state
Undone-aborted [] h = tt
Undone-aborted (s ∷ steps) (inl h) = inl (ap is_compensation_state h.0, Undone-aborted steps h.1)
Undone-aborted (s ∷ steps) (inr h) = inr (Each-states execution_aborted (s ∷ steps) h)

module _ (g : String) (t : Tables) (before : List SagaStepInstance) (here : SagaStepInstance)
    (after : List SagaStepInstance) (c : Chain g t (before ++ here ∷ after)) where
  located :
      locate here.instance_id (before ++ here ∷ after)
      ≡ some (record { before = before; here = here; after = after })
  located = locate_lem before here after (Distinct-at before here after c.distinct).0

  -- The steps of a saga, in order, that stand in a forward picture are valid for the step that
  -- the saga has come to.
  pub Forward-valid :
      Forward before here after
      → ordered_steps_valid here.instance_id (before ++ here ∷ after) ≡ true
  unfolding ordered_steps_valid valid_at any_compensation is_compensation_state
  Forward-valid f = rw located (
      rw (none_found) (
        (validate_non_compensating_mode_iff (states before) here.state (states after)).1
          (h.0, Each-states execution_done before f.done, Waiting-pending after f.waiting)))
    where
      h : (is_forward here.state ≡ true) × (is_compensation_state here.state ≡ false)
      h = forward_here here here.state f.active

      none_found : any_compensation (states (before ++ here ∷ after)) ≡ false
      none_found =
          any_skip execution_done before (here ∷ after) refl f.done
          ∙ rw h.1 (any_none after f.waiting)

  -- The steps of a saga, in order, that stand in a backward picture are valid for the step that
  -- the saga has come to.
  pub Backward-valid :
      Backward before here after
      → ordered_steps_valid here.instance_id (before ++ here ∷ after) ≡ true
  unfolding ordered_steps_valid valid_at
  Backward-valid b = rw located (
      rw (any_found before here after h) (
        (validate_compensating_mode_iff (states before) here.state (states after)).1
          (h, Each-states compensation_pending before b.pending, Undone-aborted after b.undone)))
    where
      h : is_compensation_state here.state ≡ true
      h = backward_here here here.state b.active
