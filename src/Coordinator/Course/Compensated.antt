-- ===== src/Coordinator/Course/Compensated.antt =====
-- A saga one of whose steps fails is compensated.
use mathlib.Core.List.{map-append}
use trax.Prelude.{
  String, ◌≡◌, refl, sym, ap, subst, ◌∙◌, none, some, List, [], ◌∷◌, ◌++◌, inl, All-init,
  All-append,
}
use trax.State.{
  running, compensated, compensation_pending, compensation_candidate, compensation_done,
}
use trax.Model.{SagaStepInstance}
use trax.Store.{World, pure}
use trax.Store.Rows.{with_state}
use trax.Store.Outcome.{bind-Outcome, weaken-Outcome}
use trax.Store.Quiet.{lineage}
use trax.Coordinator.Course.{step_course, course}
use trax.Coordinator.Course.Passed.{ids, asked_steps, Succeeds}
use trax.Coordinator.Course.Returned.{PassedBack, step_course-PassedBack}
use trax.Coordinator.Process.Rounds.{Reliable, Surely}
use trax.Coordinator.Process.UndoDispatch.{Childless}
use trax.Coordinator.Result.{SagaStepExecutionResultPayload}
use trax.Coordinator.Rules.Chain.{Chain}
use trax.Coordinator.Rules.Transitions.{saga_state}
use trax.Coordinator.Rules.Zipper.{snoc_append}
use trax.Coordinator.Soundness.Shapes.{Are, Undone}
use trax.Coordinator.Soundness.Held.{Becomes}
use trax.Coordinator.Soundness.Backward.{Compensated, released, released-append, state_when-append}

-- For each step one answer, a success, the last step first.
pub data UndoneInTurn (g : String)
    : List SagaStepInstance → List SagaStepExecutionResultPayload → Type 0 where
  first_reached : UndoneInTurn g [] []
  before_it :
      {steps : List SagaStepInstance} {answers : List SagaStepExecutionResultPayload}
      (step : SagaStepInstance) (answer : SagaStepExecutionResultPayload)
      → Succeeds g step answer
      → UndoneInTurn g steps answers
      → UndoneInTurn g (steps ++ step ∷ []) (answer ∷ answers)

-- The steps of these answers were asked for, one after the other.
abbrev pub asked_for : List SagaStepExecutionResultPayload → List String → List String
asked_for [] l = l
asked_for (answer ∷ answers) l = asked_for answers (answer.saga_step_instance_id ∷ l)

-- The saga is COMPENSATED: the steps up to and with one are COMPENSATION_DONE, and the others are
-- as they were. `asked` says for which steps the messages ask.
pub record Returned (g : String) (steps after : List SagaStepInstance) (asked : List String)
    (v : World) : Type 0 where
  pub undone : List SagaStepInstance
  pub same_ids : ids undone ≡ ids steps
  pub done : Are compensation_done undone
  pub chain : Chain g v.tables (undone ++ after)
  pub state : saga_state g v.tables ≡ some compensated
  pub closed : v.saved ≡ none
  pub messages : asked_steps v ≡ asked

pub ids_snoc :
    (l l' : List SagaStepInstance) (s s' : SagaStepInstance)
    → ids l ≡ ids l'
    → s.instance_id ≡ s'.instance_id
    → ids (l ++ s ∷ []) ≡ ids (l' ++ s' ∷ [])
ids_snoc l l' s s' h e =
    map-append (λ s. s.instance_id) l (s ∷ [])
    ∙ ap (λ m. m ++ s.instance_id ∷ []) h
    ∙ ap (λ i. ids l' ++ i ∷ []) e
    ∙ sym (map-append (λ s. s.instance_id) l' (s' ∷ []))

-- What is left of the walk back, once the step `here` is passed.
pub course-Returned :
    (g : String) {before : List SagaStepInstance} {answers : List SagaStepExecutionResultPayload}
    → UndoneInTurn g before answers
    → (here : SagaStepInstance) (after : List SagaStepInstance) (v : World) → v.saved ≡ none
    → Compensated g before here after v.tables
    → Are compensation_pending before
    → Undone after
    → Childless g (lineage v.tables)
    → Reliable v.env
    → Surely
        (λ _ u. Returned g (before ++ here ∷ []) after (asked_for answers (asked_steps v)) u)
        (course answers)
        v
unfolding course pure
course-Returned g first_reached here after v closed rows pending undone childless reliable =
    record {
      undone = with_state compensation_done here ∷ [];
      same_ids = refl;
      done = (refl, tt);
      chain = rows.1;
      state = rows.2;
      closed = closed;
      messages = refl;
    }
course-Returned g (before_it {steps = xs} {answers = answers} x a succeeds turn) here after v closed
      rows pending undone childless reliable =
    bind-Outcome (λ _ u. PassedBack g v xs candidate rest u) _ (λ _. ⊥) (step_course a) _ v
      (step_course-PassedBack g xs candidate rest v reliable childless pending_before.0
        (inl (refl, undone)) a succeeds closed here_rows refl)
      (λ _ u p.
        weaken-Outcome _ _ _ (course answers) u
          (course-Returned g turn p.row rest u p.closed p.rows pending_before.0 (inl (refl, undone))
            (subst (Childless g) (sym p.kin) childless) (subst Reliable (sym p.same_env) reliable))
          (λ _ y r. record {
            undone = r.undone ++ with_state compensation_done here ∷ [];
            same_ids =
                ids_snoc r.undone (xs ++ x ∷ []) (with_state compensation_done here) here
                  (r.same_ids ∙ ids_snoc xs xs p.row x refl p.same_id) refl;
            done = All-append _ r.undone _ r.done (refl, tt);
            chain =
                subst (Chain g y.tables)
                  (sym (snoc_append r.undone (with_state compensation_done here) after)) r.chain;
            state = r.state;
            closed = r.closed;
            messages =
                r.messages
                ∙ ap (asked_for answers) (p.asked ∙ ap (λ i. i ∷ asked_steps v) (sym succeeds.1));
          }))
  where
    candidate : SagaStepInstance
    candidate = with_state compensation_candidate x

    rest : List SagaStepInstance
    rest = with_state compensation_done here ∷ after

    pending_before : Are compensation_pending xs × (x.state ≡ compensation_pending)
    pending_before = All-init (λ s. s.state ≡ compensation_pending) xs x pending

    here_rows : Becomes g running (xs ++ candidate ∷ rest) v.tables
    here_rows =
        subst (λ l. Becomes g running l v.tables) (snoc_append xs candidate rest)
          (subst (λ l. Becomes g running (l ++ rest) v.tables) (released-append xs x)
            (subst (λ s. Becomes g s (released (xs ++ x ∷ []) ++ rest) v.tables)
              (state_when-append xs x) rows))
