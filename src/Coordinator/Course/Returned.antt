-- ===== src/Coordinator/Course/Returned.antt =====
-- A step that is compensated, and the steps before it one after the other.

use trax.Prelude.{String, true, ◌≡◌, refl, sym, ap, subst, ◌∙◌, none, List, ◌∷◌, ◌++◌, map}
use trax.State.{running, compensation_pending, compensation_candidate, compensation_succeeded}
use trax.Model.{SagaStepInstance}
use trax.Store.{World}
use trax.Store.Outcome.{bind-Outcome, weaken-Outcome}
use trax.Store.Quiet.{lineage, After, After-lineage}
use trax.Coordinator.Course.{resume, step_course}
use trax.Coordinator.Course.Passed.{asked_steps, Succeeds}
use trax.Coordinator.Course.Undoing.{
  poll_step-UndoDispatched, undo-Recorded, with_mutex-Compensated,
}
use trax.Coordinator.Process.{poll_step, process_step_with_mutex}
use trax.Coordinator.Process.Rounds.{Reliable, Surely}
use trax.Coordinator.Process.UndoDispatch.{Childless, UndoDispatched}
use trax.Coordinator.Process.Visit.{Returning}
use trax.Coordinator.Result.{SagaStepExecutionResultPayload, process_saga_step_execution_result}
use trax.Coordinator.Result.Kept.{row_with_result}
use trax.Coordinator.Soundness.Shapes.{Are, Undone, BackwardHere}
use trax.Coordinator.Soundness.Held.{Becomes, Made}
use trax.Coordinator.Soundness.Backward.{Compensated}

-- The step `here` was compensated: since the world `w` one message was sent, which asks for it.
pub record PassedBack (g : String) (w : World) (before : List SagaStepInstance)
    (here : SagaStepInstance) (after : List SagaStepInstance) (v : World) : Type 0 where
  pub row : SagaStepInstance
  pub same_id : row.instance_id ≡ here.instance_id
  pub rows : Compensated g before row after v.tables
  pub closed : v.saved ≡ none
  pub asked : asked_steps v ≡ here.instance_id ∷ asked_steps w
  pub same_env : v.env ≡ w.env
  pub kin : lineage v.tables ≡ lineage w.tables

module _ (g : String) (before : List SagaStepInstance) (here : SagaStepInstance)
    (after : List SagaStepInstance) (w : World) (reliable : Reliable w.env)
    (childless : Childless g (lineage w.tables)) (pending : Are compensation_pending before)
    (undone : Undone after) (answer : SagaStepExecutionResultPayload)
    (succeeds : Succeeds g here answer) where
  Returns : Unit {0} → World → Type 0
  Returns _ v = PassedBack g w before here after v

  row-Returning :
      (v : World) (row : SagaStepInstance)
      → v.saved ≡ none
      → Becomes g running (before ++ row ∷ after) v.tables
      → BackwardHere row row.state
      → v.env ≡ w.env
      → lineage v.tables ≡ lineage w.tables
      → Returning g v before row after
  row-Returning v row closed rows active same kin = record {
    closed = closed;
    chain = rows.1;
    row = rows.2;
    backward = record { pending = pending; active = active; undone = undone };
    childless = subst (Childless g) (sym kin) childless;
    reliable = subst Reliable (sym same) reliable;
  }

  finishing :
      (v u : World) (d : UndoDispatched g before here after w v) (row : SagaStepInstance)
      → row.instance_id ≡ here.instance_id
      → row.state ≡ compensation_succeeded
      → Made (Becomes g running (before ++ row ∷ after)) u × After v u
      → Surely Returns
          (process_step_with_mutex answer.saga_instance_id answer.saga_step_instance_id)
          u
  unfolding Returns
  finishing v u d row same_id state (made, a) =
      subst (λ i. Surely Returns (process_step_with_mutex i answer.saga_step_instance_id) u)
        (sym succeeds.0)
        (subst (λ i. Surely Returns (process_step_with_mutex g i) u) (same_id ∙ sym succeeds.1)
          (weaken-Outcome _ _ _ (process_step_with_mutex g row.instance_id) u
            (with_mutex-Compensated g u before row after
              (row-Returning u row made.0 made.1 (subst (BackwardHere row) (sym state) tt)
                (a.same_env ∙ d.later.0) (After-lineage v u a d.closed ∙ d.later.2))
              state)
            (λ _ x h. record {
              row = row;
              same_id = same_id;
              rows = h.0.1;
              closed = h.0.0;
              asked =
                  ap (map (λ r. r.saga_step_instance_id))
                    (h.1.same_published ∙ a.same_published ∙ d.published)
                  ∙ ap (λ i. i ∷ asked_steps w) d.asked;
              same_env = h.1.same_env ∙ a.same_env ∙ d.later.0;
              kin = After-lineage u x h.1 made.0 ∙ After-lineage v u a d.closed ∙ d.later.2;
            })))

  -- The answer to a compensation that was asked for.
  pub resume-PassedBack :
      (v : World)
      → UndoDispatched g before here after w v
      → Surely (λ _ u. PassedBack g w before here after u) (resume answer) v
  unfolding Returns
  resume-PassedBack v d =
      let row' = row_with_result g v before d.row after answer compensation_succeeded true in
      bind-Outcome (λ _ u. Made (Becomes g running (before ++ row' ∷ after)) u × After v u) Returns
        (λ _. ⊥) (process_saga_step_execution_result answer) _ v
        (undo-Recorded g v before d.row after
          (row-Returning v d.row d.closed d.rows (subst (BackwardHere d.row) (sym d.runs) d.logged)
            d.later.0 d.later.2)
          answer d.runs succeeds.0 (succeeds.1 ∙ sym d.same_id) (rw succeeds.2 refl))
        (λ _ u h. finishing v u d row' d.same_id refl h)

  -- A candidate for compensation.
  pub step_course-PassedBack :
      w.saved ≡ none
      → Becomes g running (before ++ here ∷ after) w.tables
      → here.state ≡ compensation_candidate
      → Surely (λ _ u. PassedBack g w before here after u) (step_course answer) w
  unfolding step_course Returns
  step_course-PassedBack closed rows candidate =
      let polled = λ (_ : Unit {0}) (v : World). UndoDispatched g before here after w v in
      bind-Outcome polled Returns (λ _. ⊥)
        (poll_step answer.saga_instance_id answer.saga_step_instance_id) _ w
        (subst (λ i. Surely polled (poll_step i answer.saga_step_instance_id) w) (sym succeeds.0)
          (subst (λ i. Surely polled (poll_step g i) w) (sym succeeds.1)
            (poll_step-UndoDispatched g w before here after
              (row-Returning w here closed rows (subst (BackwardHere here) (sym candidate) tt) refl
                refl)
              candidate)))
        (λ _ v d. resume-PassedBack v d)
