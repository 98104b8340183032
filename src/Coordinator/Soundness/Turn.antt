-- ===== src/Coordinator/Soundness/Turn.antt =====
-- The case EXECUTION_FAILED of processSagaStep turns a saga from forward to backward.
use mathlib.Core.List.{append-nil}
use trax.Prelude.{
  String, ◌≡◌, refl, sym, ap, subst, inr, true, none, some, List, [], ◌∷◌, ◌++◌, All, map,
}
use trax.State.{
  SagaStepState, execution_pending, execution_done, execution_aborted, compensation_pending,
  compensation_candidate, running,
}
use trax.Model.{SagaStepInstance}
use trax.Store.{Tables, World, pure, ◌>>◌}
use trax.Store.Rows.{with_state}
use trax.Store.Outcome.{
  Outcome, bind-Outcome, last-Outcome, gets-Outcome, modify-Outcome, weaken-Outcome,
}
use trax.Coordinator.Transit.{transit_each, transit_current_step}
use trax.Coordinator.Forward.{pending, prepare_compensation, process_execution_failed}
use trax.Coordinator.Rules.Chain.{Chain}
use trax.Coordinator.Rules.Transitions.{saga_state}
use trax.Coordinator.Rules.Focus.{Focus, position_rule, current_rule}
use trax.Coordinator.Rules.Loops.{state_rule, each_rule, prepare_rule}
use trax.Coordinator.Rules.Transaction.{opened}
use trax.Coordinator.Rules.Zipper.{snoc_append}
use trax.Coordinator.Soundness.Shapes.{Are, Waiting, Undone, Forward, Backward, Sound, backward}
use trax.Coordinator.Soundness.Held.{Becomes, Made, Stopped, Saved, kept_rule, step_is-eq_to}

pub Are-map :
    (state : SagaStepState) (steps : List SagaStepInstance)
    → Are state (map (with_state state) steps)
Are-map state [] = tt
Are-map state (s ∷ steps) = (refl, Are-map state steps)

pub Undone-map : (steps : List SagaStepInstance) → Undone (map (with_state execution_aborted) steps)
Undone-map [] = tt
Undone-map (s ∷ steps) = inr (refl, Are-map execution_aborted steps)

pending-Waiting : (steps : List SagaStepInstance) → All Waiting steps → pending steps ≡ steps
pending-Waiting [] h = refl
pending-Waiting (s ∷ steps) h =
    rw (step_is-eq_to s execution_pending h.0.0) (ap (λ l. s ∷ l) (pending-Waiting steps h.1))

-- The step is to be compensated, those before it wait for it, those after it are aborted.
abbrev pub turned :
    List SagaStepInstance → SagaStepInstance → List SagaStepInstance → List SagaStepInstance
turned before here after =
    map (with_state compensation_pending) before
    ++ with_state compensation_candidate here ∷ map (with_state execution_aborted) after

module _ (g : String) (t : Tables) (before : List SagaStepInstance) (here : SagaStepInstance)
    (after : List SagaStepInstance) where
  abbrev R : Unit {0} → World → Type 0
  R _ v =
      Focus g (some t) running v (with_state compensation_candidate here) (turned before here after)

  -- The other steps are set, then the step itself.
  turn :
      (w : World)
      → Focus g (some t) running w here (before ++ here ∷ after)
      → Are execution_done before
      → Outcome R (Saved t) (
          (do
            transit_each after execution_aborted
            prepare_compensation before
            transit_current_step compensation_candidate)
            w)
  unfolding pure
  turn w f done =
      bind-Outcome (λ _ v. Focus g (some t) running v here (before ++ here ∷ aborted)) R (Saved t) _
        _ w
        (each_rule g (some t) running
          (λ _ v. Focus g (some t) running v here (before ++ here ∷ aborted)) (Saved t)
          (λ v s e. (s, e)) here execution_aborted (before ++ here ∷ []) after [] w
          (subst (Focus g (some t) running w here) (sym (closing after)) f)
          (λ v f. subst (Focus g (some t) running v here) (closing aborted) f))
        (λ _ v f.
          bind-Outcome (λ _ v. Focus g (some t) running v here (prepared ++ here ∷ aborted)) R
            (Saved t) _ _ v
            (prepare_rule g (some t) running
              (λ _ v. Focus g (some t) running v here (prepared ++ here ∷ aborted)) (Saved t)
              (λ v s e. (s, e)) here [] before (here ∷ aborted) v done f (λ v f. f))
            (λ _ v f. last-Outcome R (Saved t) _ v (
              current_rule g (some t) running R (Saved t) (λ v s e. (s, e)) v here
                compensation_candidate prepared here aborted pure refl f (λ v f. f))))
    where
      aborted : List SagaStepInstance
      aborted = map (with_state execution_aborted) after

      prepared : List SagaStepInstance
      prepared = map (with_state compensation_pending) before

      closing :
          (xs : List SagaStepInstance) → (before ++ here ∷ []) ++ (xs ++ []) ≡ before ++ here ∷ xs
      closing xs = rw (append-nil xs) (snoc_append before here xs)

module _ (g : String) (w : World) (before : List SagaStepInstance) (here : SagaStepInstance)
    (after : List SagaStepInstance) where
  pub turned-Backward :
      Forward before here after
      → Backward
          (map (with_state compensation_pending) before)
          (with_state compensation_candidate here)
          (map (with_state execution_aborted) after)
  turned-Backward f = record {
    pending = Are-map compensation_pending before;
    active = tt;
    undone = Undone-map after;
  }

  turned-Sound :
      Forward before here after
      → (t : Tables) → Chain g t (turned before here after)
      → saga_state g t ≡ some running
      → Sound g t
  turned-Sound f t chain row = backward _ _ _ chain row (turned-Backward f)

  -- As below, with what the handler holds at the end.
  pub process_execution_failed-Turned :
      Focus g none running w here (before ++ here ∷ after)
      → Forward before here after
      → Outcome
          (λ again v.
            Focus g none running v
              (with_state compensation_candidate here)
              (turned before here after)
            × (again ≡ true))
          (Stopped w.tables (Becomes g running (turned before here after)))
          (process_execution_failed w)
  unfolding process_execution_failed pure
  process_execution_failed-Turned focus f =
      bind-Outcome (λ _ v. H v) (λ again v. H v × (again ≡ true)) (Stopped w.tables Q) _ _ w
        (kept_rule g running running w here (with_state compensation_candidate here)
          (before ++ here ∷ after) (turned before here after) _ (turned-Sound f) focus
          (λ focus.
            position_rule g (some w.tables) running R' (Saved w.tables) (λ v s e. (s, e)) (opened w)
              here before after _ _ focus
              (λ focus. gets-Outcome R' (Saved w.tables) _ _ _ (
                modify-Outcome R' (Saved w.tables) _ _ _ (
                  gets-Outcome R' (Saved w.tables) _ _ _ (
                    state_rule g (some w.tables) running R' (Saved w.tables) (λ v s e. (s, e)) here
                      _ w.saga.state (before ++ here ∷ after) _ (with_reason focus)
                      (λ v f'. rw (pending-Waiting after f.waiting) (
                        turn g w.tables before here after v
                          (subst
                            (λ state. Focus g (some w.tables) state v here (before ++ here ∷ after))
                            focus.state_held f')
                          f.done))))))))
        (λ _ v made. (made, refl))
    where
      Q : Tables → Type 0
      Q = Becomes g running (turned before here after)

      R' : Unit {0} → World → Type 0
      R' _ v =
          Focus g (some w.tables) running v (with_state compensation_candidate here)
            (turned before here after)

      H : World → Type 0
      H v =
          Focus g none running v (with_state compensation_candidate here) (turned before here after)

      with_reason :
          {v : World} {reason : String}
          → Focus g (some w.tables) running v here (before ++ here ∷ after)
          → Focus g
              (some w.tables)
              running
              (record v { saga = record v.saga { compensation_reason = reason } })
              here
              (before ++ here ∷ after)
      with_reason f = record {
        saved_is = f.saved_is;
        saga_held = f.saga_held;
        step_held = f.step_held;
        chain = f.chain;
        row = f.row;
        state_held = f.state_held;
      }

  -- A handler holds a running saga, whose steps stand in a forward picture, and the step that the
  -- saga has come to, with no transaction open. The case EXECUTION_FAILED sets the step to
  -- COMPENSATION_CANDIDATE, all before it to COMPENSATION_PENDING and all after it to
  -- EXECUTION_ABORTED, and asks for another round. It stops only in an environment that makes
  -- some call fail, with all of this done or none of it, and no transaction is open at the end.
  -- It never marks the saga invalid, panics or loops for ever.
  pub process_execution_failed-Made :
      Focus g none running w here (before ++ here ∷ after)
      → Forward before here after
      → Outcome
          (λ again v. Made (Becomes g running (turned before here after)) v × (again ≡ true))
          (Stopped w.tables (Becomes g running (turned before here after)))
          (process_execution_failed w)
  process_execution_failed-Made focus f =
      weaken-Outcome _ _ _ process_execution_failed w (process_execution_failed-Turned focus f)
        (λ a v h.
          ((h.0.saved_is, (turned-Sound f v.tables h.0.chain h.0.row, h.0.chain, h.0.row)), h.1))
