-- ===== src/Coordinator/Soundness/Held.antt =====
-- Transactions of a handler that holds a step of a sound saga.
use trax.Prelude.{◌⊎◌, inl, inr, String, ◌≡◌, refl, true, none, some, List, [], ◌∷◌, all}
use trax.State.{SagaState, SagaStepState, step_is, step_is_refl}
use trax.Model.{SagaStepInstance}
use trax.Store.{Tables, World, M}
use trax.Store.Outcome.{Outcome, Failed}
use trax.Coordinator.Transit.{transaction}
use trax.Coordinator.Rules.Chain.{Chain}
use trax.Coordinator.Rules.Transitions.{saga_state}
use trax.Coordinator.Rules.Focus.{Focus}
use trax.Coordinator.Rules.Transaction.{opened, committed_world, transaction-Outcome}
use trax.Coordinator.Soundness.Shapes.{Are, Sound}

pub all-Are :
    (state : SagaStepState) (steps : List SagaStepInstance)
    → Are state steps
    → all (λ s. step_is s.state state) steps ≡ true
all-Are state [] h = refl
all-Are state (s ∷ steps) h = rw h.0 (rw (step_is_refl state) (all-Are state steps h.1))

pub step_is-eq_to :
    (s : SagaStepInstance) (state : SagaStepState) → s.state ≡ state → step_is s.state state ≡ true
step_is-eq_to s state e = rw e (step_is_refl state)

-- The rows are sound, and the saga and its steps are exactly the given ones.
abbrev pub Becomes : String → SagaState → List SagaStepInstance → Tables → Type 0
Becomes g state steps t = Sound g t × Chain g t steps × (saga_state g t ≡ some state)

-- What the body of a transaction that began with `t` leaves.
abbrev pub Inside : Tables → (Tables → Type 0) → World → Type 0
Inside t Q v = (v.saved ≡ some t) × Q v.tables

-- The body has stopped, in an environment that makes some call fail.
abbrev pub Saved : Tables → World → Type 0
Saved t v = (v.saved ≡ some t) × Failed v

-- A handler has done all of its work, and no transaction is open.
abbrev pub Made : (Tables → Type 0) → World → Type 0
Made Q v = (v.saved ≡ none) × Q v.tables

-- A handler that began with the rows `t` has stopped, in an environment that makes some call
-- fail: all of its work is done or none, and no transaction is open.
abbrev pub Stopped : Tables → (Tables → Type 0) → World → Type 0
Stopped t Q v = (v.saved ≡ none) × Failed v × ((v.tables ≡ t) ⊎ Q v.tables)

module _ {ℓ} {A : Type ℓ} (g : String) (state : SagaState) (w : World) (here : SagaStepInstance)
    (steps : List SagaStepInstance) (Q : Tables → Type 0) where
  pub transaction_rule :
      (body : M A)
      → Focus g none state w here steps
      → (Focus g (some w.tables) state (opened w) here steps
          → Outcome (λ _ v. Inside w.tables Q v) (Saved w.tables) (body (opened w)))
      → Outcome (λ _ v. Made Q v) (Stopped w.tables Q) (transaction body w)
  transaction_rule body f h =
      transaction-Outcome w.tables (λ _ v. Made Q v) (λ _ v. Inside w.tables Q v)
        (Stopped w.tables Q) (λ a v r. r.0) (λ a v r. (refl, r.1)) (λ a v r e. (refl, e, inr r.1))
        (λ v e. (refl, e, inl refl)) body w f.saved_is (λ e. (f.saved_is, e, inl refl)) refl
        (h (record {
          saved_is = refl;
          saga_held = f.saga_held;
          step_held = f.step_held;
          chain = f.chain;
          row = f.row;
          state_held = f.state_held;
        }))

module _ {ℓ} {A : Type ℓ} (g : String) (state state' : SagaState) (w : World)
    (here here' : SagaStepInstance) (steps steps' : List SagaStepInstance) where
  -- The same, where what the handler holds is known at the end of the body.
  pub kept_rule :
      (body : M A)
      → ((t : Tables) → Chain g t steps' → saga_state g t ≡ some state' → Sound g t)
      → Focus g none state w here steps
      → (Focus g (some w.tables) state (opened w) here steps
          → Outcome
              (λ _ v. Focus g (some w.tables) state' v here' steps')
              (Saved w.tables)
              (body (opened w)))
      → Outcome
          (λ _ v. Focus g none state' v here' steps')
          (Stopped w.tables (Becomes g state' steps'))
          (transaction body w)
  kept_rule body sound f h =
      transaction-Outcome w.tables (λ _ v. Focus g none state' v here' steps')
        (λ _ v. Focus g (some w.tables) state' v here' steps')
        (Stopped w.tables (Becomes g state' steps')) (λ a v r. r.saved_is) (λ a v r. closed v r)
        (λ a v r e. (refl, e, inr (sound _ r.chain r.row, r.chain, r.row)))
        (λ v e. (refl, e, inl refl)) body w f.saved_is (λ e. (f.saved_is, e, inl refl)) refl
        (h (record {
          saved_is = refl;
          saga_held = f.saga_held;
          step_held = f.step_held;
          chain = f.chain;
          row = f.row;
          state_held = f.state_held;
        }))
    where
      closed :
          (v : World)
          → Focus g (some w.tables) state' v here' steps'
          → Focus g none state' (committed_world v) here' steps'
      closed v r = record {
        saved_is = refl;
        saga_held = r.saga_held;
        step_held = r.step_held;
        chain = r.chain;
        row = r.row;
        state_held = r.state_held;
      }

module _ {ℓ} {A : Type ℓ} (g : String) (state : SagaState) (w : World) (here : SagaStepInstance)
    (steps : List SagaStepInstance) (Q : Tables → Type 0) (P : SagaStepInstance → Type 0) where
  -- The same, where something is known of the step that is held at the end.
  pub with_step_rule :
      (body : M A)
      → Focus g none state w here steps
      → (Focus g (some w.tables) state (opened w) here steps
          → Outcome (λ _ v. Inside w.tables Q v × P v.step) (Saved w.tables) (body (opened w)))
      → Outcome (λ _ v. Made Q v × P v.step) (Stopped w.tables Q) (transaction body w)
  with_step_rule body f h =
      transaction-Outcome w.tables (λ _ v. Made Q v × P v.step)
        (λ _ v. Inside w.tables Q v × P v.step) (Stopped w.tables Q) (λ a v r. r.0.0)
        (λ a v r. ((refl, r.0.1), r.1)) (λ a v r e. (refl, e, inr r.0.1))
        (λ v e. (refl, e, inl refl)) body w f.saved_is (λ e. (f.saved_is, e, inl refl)) refl
        (h (record {
          saved_is = refl;
          saga_held = f.saga_held;
          step_held = f.step_held;
          chain = f.chain;
          row = f.row;
          state_held = f.state_held;
        }))
