-- ===== src/Coordinator/Course/Passed.antt =====
-- A step that succeeds is passed.
use trax.Prelude.{String, ◌≡◌, refl, sym, ap, subst, ◌∙◌, false, none, List, [], ◌∷◌, ◌++◌, map}
use trax.State.{running, success, execution_candidate, execution_succeeded}
use trax.Model.{SagaStepInstance}
use trax.Store.{World, ◌>>◌}
use trax.Store.Outcome.{bind-Outcome, weaken-Outcome}
use trax.Store.Quiet.{After}
use trax.Coordinator.Course.{step_course}
use trax.Coordinator.Course.Stages.{poll_step-Dispatched, answer-Recorded, with_mutex-Advanced}
use trax.Coordinator.Process.{poll_step, process_step_with_mutex}
use trax.Coordinator.Process.Rounds.{Reliable, Surely}
use trax.Coordinator.Process.Dispatch.{Dispatched}
use trax.Coordinator.Process.Visit.{Going}
use trax.Coordinator.Result.{SagaStepExecutionResultPayload, process_saga_step_execution_result}
use trax.Coordinator.Result.Kept.{row_with_result}
use trax.Coordinator.Soundness.Shapes.{ForwardHere}
use trax.Coordinator.Soundness.Held.{Becomes, Made}
use trax.Coordinator.Soundness.Forward.{advanced, state_after}

abbrev pub ids : List SagaStepInstance → List String
ids = map (λ s. s.instance_id)

-- The steps that the published messages ask to execute, the newest first.
abbrev pub asked_steps : World → List String
asked_steps w = map (λ r. r.saga_step_instance_id) w.published

-- One answer for the step: a success.
abbrev pub Succeeds : String → SagaStepInstance → SagaStepExecutionResultPayload → Type 0
Succeeds g s answer =
    (answer.saga_instance_id ≡ g)
    × (answer.saga_step_instance_id ≡ s.instance_id)
    × (answer.status ≡ success)

-- For each step one answer, in order.
abbrev pub AllSucceed :
    String → List SagaStepInstance → List SagaStepExecutionResultPayload → Type 0
AllSucceed g [] [] = Unit
AllSucceed g (s ∷ steps) (answer ∷ answers) = Succeeds g s answer × AllSucceed g steps answers
AllSucceed g [] (answer ∷ answers) = ⊥
AllSucceed g (s ∷ steps) [] = ⊥

-- The step `here` was executed once, and it is done.
pub record Passed (g : String) (w : World) (before : List SagaStepInstance)
    (here : SagaStepInstance) (after : List SagaStepInstance) (v : World) : Type 0 where
  pub row : SagaStepInstance
  pub same_id : row.instance_id ≡ here.instance_id
  pub rows : Becomes g (state_after after) (advanced before row after) v.tables
  pub closed : v.saved ≡ none
  pub asked : asked_steps v ≡ here.instance_id ∷ asked_steps w
  pub same_env : v.env ≡ w.env

module _ (g : String) (before : List SagaStepInstance) (here : SagaStepInstance)
    (after : List SagaStepInstance) (w : World) (going : Going g w before here after)
    (candidate : here.state ≡ execution_candidate) (answer : SagaStepExecutionResultPayload)
    (succeeds : Succeeds g here answer) where
  abbrev pub PassedAt : Unit {0} → World → Type 0
  PassedAt _ v = Passed g w before here after v

  row-Going :
      (v : World) (row : SagaStepInstance)
      → v.saved ≡ none
      → Becomes g running (before ++ row ∷ after) v.tables
      → ForwardHere row row.state
      → v.env ≡ w.env
      → Going g v before row after
  row-Going v row closed rows active same = record {
    closed = closed;
    chain = rows.1;
    row = rows.2;
    forward = record {
      done = going.forward.done;
      active = active;
      waiting = going.forward.waiting;
    };
    reliable = subst Reliable (sym same) going.reliable;
  }

  finishing :
      (v u : World) (d : Dispatched g before here after w v) (row : SagaStepInstance)
      → row.instance_id ≡ here.instance_id
      → row.state ≡ execution_succeeded
      → Made (Becomes g running (before ++ row ∷ after)) u × After v u
      → Surely PassedAt
          (process_step_with_mutex answer.saga_instance_id answer.saga_step_instance_id)
          u
  finishing v u d row same_id state (made, a) =
      subst (λ i. Surely PassedAt (process_step_with_mutex i answer.saga_step_instance_id) u)
        (sym succeeds.0)
        (subst (λ i. Surely PassedAt (process_step_with_mutex g i) u) (same_id ∙ sym succeeds.1)
          (weaken-Outcome _ _ _ (process_step_with_mutex g row.instance_id) u
            (with_mutex-Advanced g u before row after
              (row-Going u row made.0 made.1 (subst (ForwardHere row) (sym state) tt)
                (a.same_env ∙ d.later.0))
              state)
            (λ _ x h. record {
              row = row;
              same_id = same_id;
              rows = h.0.1;
              closed = h.0.0;
              asked =
                  ap (map (λ r. r.saga_step_instance_id))
                    (h.1.same_published ∙ a.same_published ∙ d.published)
                  ∙ ap (λ i. i ∷ asked_steps w) d.asked;
              same_env = h.1.same_env ∙ a.same_env ∙ d.later.0;
            })))

  answered :
      (v : World)
      → Dispatched g before here after w v
      → Surely PassedAt
          (do
            process_saga_step_execution_result answer
            process_step_with_mutex answer.saga_instance_id answer.saga_step_instance_id)
          v
  answered v d =
      let row' = row_with_result g v before d.row after answer execution_succeeded false in
      bind-Outcome (λ _ u. Made (Becomes g running (before ++ row' ∷ after)) u × After v u) PassedAt
        (λ _. ⊥) (process_saga_step_execution_result answer) _ v
        (answer-Recorded g v before d.row after
          (row-Going v d.row d.closed d.rows (subst (ForwardHere d.row) (sym d.runs) d.logged)
            d.later.0)
          answer execution_succeeded d.runs succeeds.0 (succeeds.1 ∙ sym d.same_id)
          (rw succeeds.2 refl))
        (λ _ u h. finishing v u d row' d.same_id refl h)

  pub step_course-Passed : Surely PassedAt (step_course answer) w
  unfolding step_course
  step_course-Passed =
      bind-Outcome (λ _ v. Dispatched g before here after w v) PassedAt (λ _. ⊥) _ _ w
        (subst
          (λ i.
            Surely (λ _ v. Dispatched g before here after w v)
              (poll_step i answer.saga_step_instance_id) w)
          (sym succeeds.0)
          (subst (λ i. Surely (λ _ v. Dispatched g before here after w v) (poll_step g i) w)
            (sym succeeds.1) (poll_step-Dispatched g w before here after going candidate)))
        (λ _ v d. answered v d)
