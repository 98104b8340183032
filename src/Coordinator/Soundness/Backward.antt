-- ===== src/Coordinator/Soundness/Backward.antt =====
-- The case COMPENSATION_SUCCEEDED of processSagaStep keeps a saga sound.
use trax.Prelude.{
  ap, ◌∙◌, String, ◌≡◌, refl, sym, subst, inl, inr, Bool, true, false, none, some, List, [], ◌∷◌,
  ◌++◌, ◌&&◌, if◌then◌else◌, get_last?, Ends, empty, ends_in, ends, get_last?-append, All-init,
}
use trax.State.{
  SagaState, compensation_pending, compensation_candidate, compensation_done, execution_aborted,
  running, compensated, step_is,
}
use trax.Model.{SagaStepInstance}
use trax.Store.{Tables, World, pure, exit, gets, invalidate, ◌>>=◌, ◌>>◌}
use trax.Store.Rows.{with_state}
use trax.Store.Outcome.{Outcome, bind-Outcome, last-Outcome, gets-Outcome, then-Outcome}
use trax.Validation.{Position, states}
use trax.Coordinator.Transit.{transit_saga_to_state, transit_current_step}
use trax.Coordinator.Backward.{
  compensation_finished, release_previous, finish_compensation, process_compensation_succeeded,
}
use trax.Coordinator.Rules.Focus.{Focus, position_rule, current_rule, step_rule, saga_rule}
use trax.Coordinator.Rules.Chain.{Chain}
use trax.Coordinator.Rules.Transaction.{opened}
use trax.Coordinator.Rules.Zipper.{move_on}
use trax.Coordinator.Soundness.Shapes.{Are, Undone, Backward, backward, undone}
use trax.Coordinator.Soundness.Held.{
  with_step_rule, Becomes, Inside, Made, Stopped, Saved, step_is-eq_to,
}

finished-aborted :
    (seen : Bool) (steps : List SagaStepInstance)
    → Are execution_aborted steps
    → compensation_finished seen (states steps) ≡ true
unfolding compensation_finished
finished-aborted seen [] h = refl
finished-aborted seen (s ∷ steps) h = rw h.0 (finished-aborted true steps h.1)

finished-Undone :
    (steps : List SagaStepInstance)
    → Undone steps
    → compensation_finished false (states steps) ≡ true
unfolding compensation_finished
finished-Undone [] h = refl
finished-Undone (s ∷ steps) (inl h) = rw h.0 (finished-Undone steps h.1)
finished-Undone (s ∷ steps) (inr h) = finished-aborted false (s ∷ steps) h

finish-snoc :
    (xs : List SagaStepInstance) (x : SagaStepInstance) (p : Position)
    → finish_compensation (record p { before = xs ++ x ∷ [] }) ≡ pure tt
unfolding finish_compensation
finish-snoc [] x p = refl
finish-snoc (y ∷ xs) x p = refl

-- The last of the steps is released.
abbrev pub released : List SagaStepInstance → List SagaStepInstance
released [] = []
released (s ∷ []) = with_state compensation_candidate s ∷ []
released (s ∷ next ∷ steps) = s ∷ released (next ∷ steps)

pub released-append :
    (xs : List SagaStepInstance) (x : SagaStepInstance)
    → released (xs ++ x ∷ []) ≡ xs ++ with_state compensation_candidate x ∷ []
released-append [] x = refl
released-append (y ∷ []) x = refl
released-append (y ∷ z ∷ xs) x = ap (λ l. y ∷ l) (released-append (z ∷ xs) x)

-- With no step before it the saga is compensated.
abbrev pub state_when : List SagaStepInstance → SagaState
state_when [] = compensated
state_when (s ∷ steps) = running

pub state_when-append :
    (xs : List SagaStepInstance) (x : SagaStepInstance) → state_when (xs ++ x ∷ []) ≡ running
state_when-append [] x = refl
state_when-append (y ∷ xs) x = refl

-- What the handler makes of a step whose compensation has succeeded.
abbrev pub Compensated :
    String → List SagaStepInstance → SagaStepInstance → List SagaStepInstance → Tables → Type 0
Compensated g before here after =
    Becomes g (state_when before) (released before ++ with_state compensation_done here ∷ after)

module _ (g : String) (t : Tables) where
  abbrev R : (Tables → Type 0) → Unit {0} → World → Type 0
  R Q _ v = Inside t Q v × (v.step.state ≡ compensation_done)

  -- The first step is done: nothing is left to compensate.
  first_done :
      (w : World) (here : SagaStepInstance) (after : List SagaStepInstance)
      → Focus g (some t) running w here (here ∷ after)
      → here.state ≡ compensation_done
      → Undone after
      → Outcome (R (Becomes g compensated (here ∷ after))) (Saved t) (
          (do
            step ← gets (λ w. w.step)
            if step_is step.state compensation_done
                  && compensation_finished false (states (step ∷ after))
                then transit_saga_to_state compensated
                else exit invalidate)
            w)
  unfolding pure
  first_done w here after f done u =
      gets-Outcome (R (Becomes g compensated (here ∷ after))) (Saved t) (λ w. w.step) _ w
        (then-Outcome (R (Becomes g compensated (here ∷ after))) (Saved t)
          (step_is w.step.state compensation_done
            && compensation_finished false (states (w.step ∷ after)))
          _ _ w
          (rw f.step_held (
            rw (step_is-eq_to here compensation_done done)
              (finished-Undone (here ∷ after) (inl (done, u)))))
          (last-Outcome (R (Becomes g compensated (here ∷ after))) (Saved t)
            (transit_saga_to_state compensated) w
            (saga_rule g (some t) running (R (Becomes g compensated (here ∷ after))) (Saved t)
              (λ v s e. (s, e)) w here compensated (here ∷ after) _ f
              (λ v f. (
                (f.saved_is, (undone here after f.chain f.row done u, f.chain, f.row)),
                ap (λ s. s.state) f.step_held ∙ done,
              )))))

  -- The step is done, and the one before it becomes a candidate.
  previous_done :
      (before : List SagaStepInstance) (here : SagaStepInstance) (after : List SagaStepInstance)
      (w : World)
      → Ends before
      → Focus g (some t) running w here (before ++ here ∷ after)
      → Are compensation_pending before
      → Undone after
      → Outcome (R (Compensated g before here after)) (Saved t) (
          (do
            release_previous (get_last? before)
            transit_current_step compensation_done
            finish_compensation (record { before = before; here = here; after = after }))
            w)
  unfolding release_previous finish_compensation pure ◌>>=◌
  previous_done _ here after w empty f p u =
      current_rule g (some t) running (R (Compensated g [] here after)) (Saved t) (λ v s e. (s, e))
        w here compensation_done [] here after _ refl f
        (λ v f. first_done v (with_state compensation_done here) after f refl u)
  previous_done _ here after w (ends_in xs x) f p u = rw (get_last?-append xs x) (
      bind-Outcome (λ _ v. Focus g (some t) running v here ((xs ++ x' ∷ []) ++ here ∷ after))
        (R (Compensated g (xs ++ x ∷ []) here after)) (Saved t) (release_previous (some x)) _ w
        (then-Outcome _ (Saved t) (step_is x.state compensation_pending) _ _ w
          (step_is-eq_to x compensation_pending pending.1)
          (step_rule g (some t) running _ (Saved t) (λ v s e. (s, e)) w here compensation_candidate
            xs x (here ∷ after) _
            (subst (Focus g (some t) running w here) (move_on xs x here after) f)
            (λ v f. subst (Focus g (some t) running v here) (sym (move_on xs x' here after)) f)))
        (λ _ v f.
          current_rule g (some t) running (R (Compensated g (xs ++ x ∷ []) here after)) (Saved t)
            (λ v s e. (s, e)) v here compensation_done (xs ++ x' ∷ []) here after _ refl f
            (λ v f. rw (finish-snoc xs x (record { before = []; here = here; after = after })) (
              (
                f.saved_is,
                rw (state_when-append xs x, released-append xs x)
                    (
                      backward xs x' (with_state compensation_done here ∷ after)
                          (subst (Chain g v.tables)
                            (move_on xs x' (with_state compensation_done here) after) f.chain)
                          f.row
                          (record { pending = pending.0; active = tt; undone = inl (refl, u) }),
                      f.chain,
                      f.row,
                    ),
              ),
              ap (λ s. s.state) f.step_held,
            ))))
    where
      x' : SagaStepInstance
      x' = with_state compensation_candidate x

      pending : Are compensation_pending xs × (x.state ≡ compensation_pending)
      pending = All-init (λ s. s.state ≡ compensation_pending) xs x p

module _ (g : String) (w : World) (before : List SagaStepInstance) (here : SagaStepInstance)
    (after : List SagaStepInstance) where
  -- As below, with the state of the step that the handler holds at the end.
  pub process_compensation_succeeded-Undone :
      Focus g none running w here (before ++ here ∷ after)
      → Backward before here after
      → Outcome
          (λ again v.
            Made (Compensated g before here after) v
            × (again ≡ true)
            × (v.step.state ≡ compensation_done))
          (Stopped w.tables (Compensated g before here after))
          (process_compensation_succeeded w)
  unfolding process_compensation_succeeded pure
  process_compensation_succeeded-Undone focus b =
      bind-Outcome
        (λ _ v. Made (Compensated g before here after) v × (v.step.state ≡ compensation_done))
        (λ again v.
          Made (Compensated g before here after) v
          × (again ≡ true)
          × (v.step.state ≡ compensation_done))
        (Stopped w.tables (Compensated g before here after)) _ _ w
        (with_step_rule g running w here (before ++ here ∷ after) (Compensated g before here after)
          (λ s. s.state ≡ compensation_done) _ focus
          (λ focus.
            position_rule g (some w.tables) running (R g w.tables (Compensated g before here after))
              (Saved w.tables) (λ v s e. (s, e)) (opened w) here before after _ _ focus
              (λ focus.
                previous_done g w.tables before here after _ (ends before) focus b.pending
                  b.undone)))
        (λ _ v h. (h.0, refl, h.1))
