-- ===== src/Validation/Patterns.antt =====
-- What the loops of isSagaStateValid accept, as patterns of states.
use trax.Prelude.{
  ◌≡◌, refl, sym, ◌∙◌, ◌⊎◌, inl, inr, ◌↔◌, Bool, true, false, Bool-cases, List, [], ◌∷◌, ◌&&◌, All,
  all, arith,
}
use trax.State.{
  SagaStepState, step_is, step_is-eq, step_is_refl, execution_pending, execution_aborted,
  execution_done, compensation_pending,
}
use trax.Validation.{
  is_active, is_forward, is_compensation_state, next_steps_pending, next_steps_compensated,
  validate_non_compensating_mode, validate_compensating_mode,
}

-- All the states are the given one.
abbrev pub Each : SagaStepState → List SagaStepState → Type 0
Each state = All λ s. s ≡ state

-- P* X P*: at most one of the states is active, and all others are EXECUTION_PENDING.
abbrev pub PendingButOne : List SagaStepState → Type 0
PendingButOne [] = Unit
PendingButOne (s ∷ rest) =
    ((s ≡ execution_pending) × PendingButOne rest)
    ⊎ ((is_active s ≡ true) × Each execution_pending rest)

-- X* A*: states of a compensation, then EXECUTION_ABORTED.
abbrev pub CompensatedThenAborted : List SagaStepState → Type 0
CompensatedThenAborted [] = Unit
CompensatedThenAborted (s ∷ rest) =
    ((is_compensation_state s ≡ true) × CompensatedThenAborted rest)
    ⊎ Each execution_aborted (s ∷ rest)

and-split : (a b : Bool) → (a && b) ≡ true → (a ≡ true) × (b ≡ true)
and-split true true h = (refl, refl)
and-split true false h = ground arith
and-split false b h = ground arith

all-Each :
    (state : SagaStepState) (l : List SagaStepState)
    → all (λ s. step_is s state) l ≡ true
    → Each state l
all-Each state [] h = tt
all-Each state (s ∷ l) h =
    let (a, b) = and-split (step_is s state) (all (λ s. step_is s state) l) h in
    (step_is-eq s state a, all-Each state l b)

pub Each-all :
    (state : SagaStepState) (l : List SagaStepState)
    → Each state l
    → all (λ s. step_is s state) l ≡ true
Each-all state [] h = refl
Each-all state (s ∷ l) h = rw h.0 (rw (step_is_refl state) (Each-all state l h.1))

found_all :
    (l : List SagaStepState) → next_steps_pending true l ≡ all (λ s. step_is s execution_pending) l
unfolding next_steps_pending
found_all [] = refl
found_all (s ∷ l) = rw (found_all l) refl

pending_sound : (l : List SagaStepState) → next_steps_pending false l ≡ true → PendingButOne l
unfolding next_steps_pending
pending_sound [] h = tt
pending_sound (s ∷ l) h = elim (Bool-cases (step_is s execution_pending)) [
  | inl e ↦ inl (step_is-eq s execution_pending e, pending_sound l (rw e at h))
  | inr e ↦
      let (a, b) = and-split (is_active s) (next_steps_pending true l) (rw e at h) in
      inr (a, all-Each execution_pending l (sym (found_all l) ∙ b))
]

active_not_pending : (s : SagaStepState) → is_active s ≡ true → step_is s execution_pending ≡ false
unfolding is_active
active_not_pending s h = ground arith

pub pending_complete :
    (l : List SagaStepState) → PendingButOne l → next_steps_pending false l ≡ true
unfolding next_steps_pending
pending_complete [] h = refl
pending_complete (s ∷ l) (inl h) = rw h.0 (pending_complete l h.1)
pending_complete (s ∷ l) (inr h) =
    rw (active_not_pending s h.0) (rw h.0 (found_all l ∙ Each-all execution_pending l h.1))

compensation_not_aborted :
    (s : SagaStepState) → is_compensation_state s ≡ true → step_is s execution_aborted ≡ false
unfolding is_compensation_state
compensation_not_aborted s h = ground arith

aborted_all :
    (l : List SagaStepState)
    → next_steps_compensated true l ≡ all (λ s. step_is s execution_aborted) l
unfolding next_steps_compensated
aborted_all [] = refl
aborted_all (s ∷ l) = elim (Bool-cases (step_is s execution_aborted)) [
  | inl e ↦ rw (e, aborted_all l) refl
  | inr e ↦ elim (Bool-cases (is_compensation_state s)) [
    | inl c ↦ rw (e, c) refl
    | inr c ↦ rw (e, c) refl
  ]
]

compensated_sound :
    (l : List SagaStepState) → next_steps_compensated false l ≡ true → CompensatedThenAborted l
unfolding next_steps_compensated
compensated_sound [] h = tt
compensated_sound (s ∷ l) h = elim (Bool-cases (step_is s execution_aborted)) [
  | inl e ↦ inr (
    step_is-eq s execution_aborted e,
    all-Each execution_aborted l (sym (aborted_all l) ∙ rw e at h),
  )
  | inr e ↦
      let (a, b) = and-split (is_compensation_state s && true) _ (rw e at h) in
      let (c, d) = and-split (is_compensation_state s) true a in inl (c, compensated_sound l b)
]

pub compensated_complete :
    (l : List SagaStepState) → CompensatedThenAborted l → next_steps_compensated false l ≡ true
unfolding next_steps_compensated
compensated_complete [] h = refl
compensated_complete (s ∷ l) (inl h) =
    rw (compensation_not_aborted s h.0) (rw h.0 (compensated_complete l h.1))
compensated_complete (s ∷ l) (inr h) = rw h.0 (aborted_all l ∙ Each-all execution_aborted l h.1)

-- A saga going forward is accepted exactly if all steps before the current one are done, the
-- current one is in a forward state, and of the steps after it at most one is not pending, and
-- that one is active.
pub validate_non_compensating_mode_iff :
    (before : List SagaStepState) (here : SagaStepState) (after : List SagaStepState)
    → (validate_non_compensating_mode before here after ≡ true)
      ↔ ((is_forward here ≡ true) × Each execution_done before × PendingButOne after)
unfolding validate_non_compensating_mode
validate_non_compensating_mode_iff before here after = (
  λ h.
      let (a, b) = and-split _ (next_steps_pending false after) h in
      let (c, d) = and-split (is_forward here) (all (λ s. step_is s execution_done) before) a in
      (c, all-Each execution_done before d, pending_sound after b),
  λ h. rw (h.0, Each-all execution_done before h.1, pending_complete after h.2) refl,
)

-- A saga going backward is accepted exactly if all steps before the current one wait for their
-- compensation, the current one is in a compensation state, and those after it are in
-- compensation states, followed only by aborted ones.
pub validate_compensating_mode_iff :
    (before : List SagaStepState) (here : SagaStepState) (after : List SagaStepState)
    → (validate_compensating_mode before here after ≡ true) ↔ (
        (is_compensation_state here ≡ true)
        × Each compensation_pending before
        × CompensatedThenAborted after)
unfolding validate_compensating_mode
validate_compensating_mode_iff before here after = (
  λ h.
      let (a, b) = and-split _ (next_steps_compensated false after) h in
      let (c, d) =
        and-split (is_compensation_state here) (all (λ s. step_is s compensation_pending) before)
          a in
      (c, all-Each compensation_pending before d, compensated_sound after b),
  λ h. rw (h.0, Each-all compensation_pending before h.1, compensated_complete after h.2) refl,
)
