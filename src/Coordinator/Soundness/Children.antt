-- ===== src/Coordinator/Soundness/Children.antt =====
-- The tests of COMPENSATION_CANDIDATE: the child sagas of the step, and the steps after it.
use trax.Prelude.{
  Bool-cases, String, ◌≡◌, refl, sym, subst, ◌⊎◌, inl, inr, ◌||◌, true, false, List, [], ◌∷◌, ◌==◌,
  all, All,
}
use trax.State.{execution_aborted, compensated}
use trax.Model.{SagaInstance, SagaStepInstance}
use trax.Store.{continue, World, ok, M, pure, ◌>>=◌}
use trax.Store.Outcome.{Outcome}
use trax.Coordinator.Backward.{is_undone, visit_child, visit_children}
use trax.Coordinator.Soundness.Shapes.{Are, Undone}

-- An action that is known to change nothing.
pub known_rule {κ} :
    {A B : Type κ} (R : B → World → Type 0) (F : World → Type 0) (m : M A) (a : A) (k : A → M B)
    (w : World)
    → m w ≡ (ok a, w)
    → Outcome R F (k a w)
    → Outcome R F ((m >>= k) w)
unfolding ◌>>=◌
known_rule R F m a k w e h = subst (λ r. Outcome R F (continue r.0 k r.1)) (sym e) h

-- A child that the step need not wait for: one of another step, or one that is compensated.
abbrev pub Settled : String → SagaInstance → Type 0
Settled id child =
    ((child.parent_saga_step_instance_id == id) ≡ false) ⊎ (child.state ≡ compensated)

pub visit_Settled :
    (id : String) (children : List SagaInstance) (w : World)
    → All (Settled id) children
    → visit_children id false children w ≡ (ok false, w)
unfolding visit_children visit_child pure ◌>>=◌
visit_Settled id [] w h = refl
visit_Settled id (child ∷ children) w h = visit_one h.0 (visit_Settled id children w h.1)
  where
    visit_one :
        Settled id child
        → visit_children id false children w ≡ (ok false, w)
        → visit_children id false (child ∷ children) w ≡ (ok false, w)
    visit_one (inl other) ih = rw other ih
    visit_one (inr settled) ih = elim (Bool-cases (child.parent_saga_step_instance_id == id)) [
      | inl e ↦ rw e (
          subst
            (λ s.
              (visit_child child s >>= λ waiting. visit_children id (false || waiting) children) w
              ≡ (ok false, w))
            (sym settled) ih)
      | inr e ↦ rw e ih
    ]

undone-Are :
    (steps : List SagaStepInstance)
    → Are execution_aborted steps
    → all (λ s. is_undone s.state) steps ≡ true
undone-Are [] h = refl
undone-Are (s ∷ steps) h = rw h.0 (undone-Are steps h.1)

pub Undone-all :
    (steps : List SagaStepInstance) → Undone steps → all (λ s. is_undone s.state) steps ≡ true
Undone-all [] h = refl
Undone-all (s ∷ steps) (inl h) = rw h.0 (Undone-all steps h.1)
Undone-all (s ∷ steps) (inr h) = undone-Are (s ∷ steps) h
