-- ===== src/Coordinator/Rules/Transitions.antt =====
-- Rules for transitSagaToState, transitSagaStepToState and the search for the current step.
use mathlib.Core.Option
use trax.Prelude.{
  ℕ, suc, String, ◌≡◌, refl, sym, ap, subst, ◌∙◌, inl, inr, Bool, true, Bool-cases, Option, some,
  List, [], ◌∷◌, ◌++◌, ◌==◌, arith, find?,
}
use trax.State.{SagaState, SagaStepState, step_is_refl, saga_is_refl}
use trax.Model.{SagaInstance, SagaStepInstance}
use trax.Sequence.Natural.{SameLinks}
use trax.Validation.{Position, locate}
use trax.Store.{World, M, pure, exit, gets, modify, attempt, ◌>>=◌}
use trax.Store.{Tables}
use trax.Store.Rows.{at_id, with_state, set_step_state, set_saga_state, saga_row, step_row}
use trax.Store.Calls.{
  update_saga_step_state, update_saga_state, get_saga_step_instance, get_saga_instance,
  list_saga_step_instances,
}
use trax.Store.Laws.{step_row-update_steps, saga_row-set_saga_state}
use trax.Store.Outcome.{Outcome, Failed, tick}
use trax.Coordinator.Transit.{
  transit_saga_to_state, transit_saga_step_to_state, transit_current_step, current_position,
  ordered_steps,
}
use trax.Coordinator.Rules.Chain.{Chain, Distinct-at, locate_lem}

pub with_state-SameLinks :
    (target : SagaStepState) (s : SagaStepInstance) → SameLinks (with_state target s) s
with_state-SameLinks target s = record {
  same_id = refl;
  same_saga = refl;
  same_previous = refl;
  same_next = refl;
}

pub find?_passes {ℓ} :
    {A : Type ℓ} (p : A → Bool) (l : List A) (x : A) → find? p l ≡ some x → p x ≡ true
find?_passes p [] x h = ground arith
find?_passes p (y ∷ l) x h = ground (arith, find?_passes p l x)

-- The row that is read back after the update.
read_back :
    (id : String) (target : SagaStepState) (t : Tables) (row : SagaStepInstance)
    → step_row id t ≡ some row
    → step_row id (set_step_state id target t) ≡ some (with_state target row)
unfolding set_step_state step_row
read_back id target t row h =
    step_row-update_steps (with_state target) (with_state-SameLinks target) id id t
    ∙ ap (Option.map (at_id id (with_state target))) h
    ∙ ap some (ground (arith, find?_passes (λ s. s.instance_id == id) t.steps row h))

-- The state of the row of saga `g`.
abbrev pub saga_state : String → Tables → Option SagaState
saga_state g t = Option.map (λ s. s.state) (saga_row g t)

pub saga_state-set_saga_state :
    (saga : SagaInstance) (target : SagaState) (t : Tables) {old : SagaState}
    → saga_state saga.instance_id t ≡ some old
    → saga_state saga.instance_id (set_saga_state saga target t) ≡ some target
saga_state-set_saga_state saga target t h =
    rw (saga_row-set_saga_state saga target t) (ground arith)

-- The same, of the saga whose id is `g`.
pub saga_state_set :
    (g : String) (saga : SagaInstance) (target old : SagaState) (t : Tables)
    → saga.instance_id ≡ g
    → saga_state g t ≡ some old
    → saga_state g (set_saga_state saga target t) ≡ some target
saga_state_set g saga target old t e h =
    subst (λ i. saga_state i (set_saga_state saga target t) ≡ some target) e
      (saga_state-set_saga_state saga target t {old = old}
        (subst (λ i. saga_state i t ≡ some old) (sym e) h))

module _ {κ} {B : Type κ} (R : B → World → Type 0) (F : World → Type 0) where
  pub transit_step-Outcome :
      (s : SagaStepInstance) (target : SagaStepState) (row : SagaStepInstance)
      (k : SagaStepInstance → M B) (w : World)
      → step_row s.instance_id w.tables ≡ some row
      → ((t : Tables) (n : ℕ) → Failed w → F (record w { tables = t; calls = n }))
      → Outcome R F (
          k (with_state target row) (record w {
            tables = set_step_state s.instance_id target w.tables;
            calls = suc (suc w.calls);
          }))
      → Outcome R F ((transit_saga_step_to_state s target >>= k) w)
  unfolding transit_saga_step_to_state update_saga_step_state get_saga_step_instance ◌>>=◌ attempt
      gets modify exit pure
  transit_step-Outcome s target row k w e failed h = elim (Bool-cases (w.env.fails w.calls)) [
    | inl a ↦ rw a (failed w.tables (suc w.calls) (w.calls, a))
    | inr a ↦ rw a (elim (Bool-cases (w.env.fails (suc w.calls))) [
      | inl b ↦ rw b (
          failed (set_step_state s.instance_id target w.tables) (suc (suc w.calls))
            (suc w.calls, b))
      | inr b ↦
          rw b (rw (read_back s.instance_id target w.tables row e) (rw (step_is_refl target) h))
    ])
  ]

  pub transit_current-Outcome :
      (target : SagaStepState) (row : SagaStepInstance) (k : Unit {0} → M B) (w : World)
      → step_row w.step.instance_id w.tables ≡ some row
      → ((t : Tables) (n : ℕ) → Failed w → F (record w { tables = t; calls = n }))
      → Outcome R F (
          k tt (record w {
            tables = set_step_state w.step.instance_id target w.tables;
            calls = suc (suc w.calls);
            step = with_state target row;
          }))
      → Outcome R F ((transit_current_step target >>= k) w)
  unfolding transit_current_step transit_saga_step_to_state update_saga_step_state
      get_saga_step_instance ◌>>=◌ attempt gets modify exit pure
  transit_current-Outcome target row k w e failed h = elim (Bool-cases (w.env.fails w.calls)) [
    | inl a ↦ rw a (failed w.tables (suc w.calls) (w.calls, a))
    | inr a ↦ rw a (elim (Bool-cases (w.env.fails (suc w.calls))) [
      | inl b ↦ rw b (
          failed (set_step_state w.step.instance_id target w.tables) (suc (suc w.calls))
            (suc w.calls, b))
      | inr b ↦
          rw b
            (rw (read_back w.step.instance_id target w.tables row e) (rw (step_is_refl target) h))
    ])
  ]

  pub transit_saga-Outcome :
      (target old : SagaState) (k : Unit {0} → M B) (w : World)
      → saga_state w.saga.instance_id w.tables ≡ some old
      → ((t : Tables) (n : ℕ) (s : SagaState)
          → Failed w
          → F (record w { tables = t; calls = n; saga = record w.saga { state = s } }))
      → Outcome R F (
          k tt (record w {
            tables = set_saga_state w.saga target w.tables;
            calls = suc (suc w.calls);
            saga = record w.saga { state = target };
          }))
      → Outcome R F ((transit_saga_to_state target >>= k) w)
  unfolding transit_saga_to_state update_saga_state get_saga_instance ◌>>=◌ attempt gets modify exit
      pure
  transit_saga-Outcome target old k w e failed h = elim (Bool-cases (w.env.fails w.calls)) [
    | inl a ↦ rw a (failed w.tables (suc w.calls) w.saga.state (w.calls, a))
    | inr a ↦ rw a (elim (Bool-cases (w.env.fails (suc w.calls))) [
      | inl b ↦ rw b (
          failed (set_saga_state w.saga target w.tables) (suc (suc w.calls)) target
            (suc w.calls, b))
      | inr b ↦
          let (r, q) = row_of (saga_row w.saga.instance_id w.tables) e in
          rw b (
            rw (saga_row-set_saga_state w.saga target w.tables) (rw q (rw (saga_is_refl target) h)))
    ])
  ]
    where
      row_of :
          (o : Option SagaInstance)
          → Option.map (λ s. s.state) o ≡ some old
          → (r : SagaInstance) × (o ≡ some r)
      row_of o p = ground arith

  pub ordered_steps-Outcome :
      (steps : List SagaStepInstance) (k : List SagaStepInstance → M B) (w : World)
      → Chain w.saga.instance_id w.tables steps
      → (Failed w → F (tick w))
      → Outcome R F (k steps (tick w))
      → Outcome R F ((ordered_steps >>= k) w)
  unfolding ordered_steps list_saga_step_instances ◌>>=◌ attempt gets exit pure
  ordered_steps-Outcome steps k w c failed h = elim (Bool-cases (w.env.fails w.calls)) [
    | inl a ↦ rw a (failed (w.calls, a))
    | inr a ↦ rw a (rw c.ordered h)
  ]

  pub current_position-Outcome :
      (lost : M Position) (before : List SagaStepInstance) (here : SagaStepInstance)
      (after : List SagaStepInstance) (k : Position → M B) (w : World)
      → Chain w.saga.instance_id w.tables (before ++ here ∷ after)
      → w.step.instance_id ≡ here.instance_id
      → (Failed w → F (tick w))
      → Outcome R F (k (record { before = before; here = here; after = after }) (tick w))
      → Outcome R F ((current_position lost >>= k) w)
  unfolding current_position ordered_steps list_saga_step_instances ◌>>=◌ attempt gets exit pure
  current_position-Outcome lost before here after k w c e failed h =
      elim (Bool-cases (w.env.fails w.calls)) [
        | inl a ↦ rw a (failed (w.calls, a))
        | inr a ↦ rw a (rw c.ordered (rw located h))
      ]
    where
      absent :
          trax.Sequence.Chains.Absent here.instance_id before
          × trax.Sequence.Chains.Absent here.instance_id after
      absent = Distinct-at before here after c.distinct

      located :
          locate w.step.instance_id (before ++ here ∷ after)
          ≡ some (record { before = before; here = here; after = after })
      located =
          ap (λ id. locate id (before ++ here ∷ after)) e ∙ locate_lem before here after absent.0
