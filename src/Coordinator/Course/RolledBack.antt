-- ===== src/Coordinator/Course/RolledBack.antt =====
-- A saga one of whose steps fails is rolled back.
use mathlib.Core.List.{map-append}
use trax.Prelude.{String, false, ◌≡◌, refl, sym, ap, subst, ◌∙◌, none, List, [], ◌∷◌, ◌++◌, map}
use trax.State.{
  running, execution_candidate, execution_succeeded, execution_failed, execution_aborted,
  compensation_pending, compensation_candidate,
}
use trax.Model.{SagaStepInstance}
use trax.Store.{World}
use trax.Store.Rows.{with_state}
use trax.Store.Outcome.{bind-Outcome, weaken-Outcome}
use trax.Store.Quiet.{lineage, After, After-lineage}
use trax.Coordinator.Course.{resume, step_course, course, rollback_course}
use trax.Coordinator.Course.Passed.{ids, asked_steps, Succeeds}
use trax.Coordinator.Course.Stages.{poll_step-Dispatched, answer-Recorded}
use trax.Coordinator.Course.Undoing.{with_mutex-UndoDispatched}
use trax.Coordinator.Course.Returned.{PassedBack, resume-PassedBack}
use trax.Coordinator.Course.Compensated.{
  UndoneInTurn, first_reached, before_it, asked_for, Returned, ids_snoc, course-Returned,
}
use trax.Coordinator.Process.{poll_step, process_step_with_mutex}
use trax.Coordinator.Process.Dispatch.{Dispatched}
use trax.Coordinator.Process.Rounds.{Reliable, Surely}
use trax.Coordinator.Process.UndoDispatch.{Childless, UndoDispatched}
use trax.Coordinator.Process.Visit.{Going}
use trax.Coordinator.Result.{SagaStepExecutionResultPayload, process_saga_step_execution_result}
use trax.Coordinator.Result.Kept.{Answers, row_with_result}
use trax.Coordinator.Soundness.Shapes.{ForwardHere}
use trax.Coordinator.Soundness.Held.{Becomes, Made}
use trax.Coordinator.Soundness.Turn.{Are-map, Undone-map}

-- An answer for the step that is neither a success nor that the service is still at work.
abbrev pub Refuses : String → SagaStepInstance → SagaStepExecutionResultPayload → Type 0
Refuses g s answer =
    (answer.saga_instance_id ≡ g)
    × (answer.saga_step_instance_id ≡ s.instance_id)
    × Answers execution_succeeded execution_failed answer.status execution_failed

UndoneInTurn-map :
    (g : String) {steps : List SagaStepInstance} {answers : List SagaStepExecutionResultPayload}
    → UndoneInTurn g steps answers
    → UndoneInTurn g (map (with_state compensation_pending) steps) answers
UndoneInTurn-map g first_reached = first_reached
UndoneInTurn-map g (before_it {steps = xs} {answers = answers} x a succeeds turn) =
    subst (λ l. UndoneInTurn g l (a ∷ answers))
      (sym (map-append (with_state compensation_pending) xs (x ∷ [])))
      (before_it (with_state compensation_pending x) a succeeds (UndoneInTurn-map g turn))

ids-map :
    (steps : List SagaStepInstance) → ids (map (with_state compensation_pending) steps) ≡ ids steps
ids-map [] = refl
ids-map (s ∷ steps) = ap (λ l. s.instance_id ∷ l) (ids-map steps)

-- The step `here` was executed and has failed in the world `refused`, and then its compensation was
-- asked for.
record Refused (g : String) (w : World) (before : List SagaStepInstance) (here : SagaStepInstance)
    (after : List SagaStepInstance) (v : World) : Type 0 where
  pub row : SagaStepInstance
  pub same_id : row.instance_id ≡ here.instance_id
  pub refused : World
  pub waiting :
      UndoDispatched g
        (map (with_state compensation_pending) before)
        (with_state compensation_candidate row)
        (map (with_state execution_aborted) after)
        refused
        v
  pub asked : asked_steps refused ≡ here.instance_id ∷ asked_steps w
  pub same_env : refused.env ≡ w.env
  pub kin : lineage refused.tables ≡ lineage w.tables

module _ (g : String) (before : List SagaStepInstance) (here : SagaStepInstance)
    (after : List SagaStepInstance) (w : World) (going : Going g w before here after)
    (childless : Childless g (lineage w.tables)) (candidate : here.state ≡ execution_candidate)
    (failure : SagaStepExecutionResultPayload) (refuses : Refuses g here failure) where
  Refusal : Unit {0} → World → Type 0
  Refusal _ v = Refused g w before here after v

  row-Going :
      (v : World) (row : SagaStepInstance)
      → v.saved ≡ none
      → Becomes g running (before ++ row ∷ after) v.tables
      → ForwardHere row row.state
      → v.env ≡ w.env
      → Going g v before row after
  row-Going v row closed rows active same = record {
    closed = closed;
    chain = rows.1;
    row = rows.2;
    forward = record {
      done = going.forward.done;
      active = active;
      waiting = going.forward.waiting;
    };
    reliable = subst Reliable (sym same) going.reliable;
  }

  turning :
      (v u : World) (d : Dispatched g before here after w v) (row : SagaStepInstance)
      → row.instance_id ≡ here.instance_id
      → row.state ≡ execution_failed
      → Made (Becomes g running (before ++ row ∷ after)) u × After v u
      → Surely Refusal
          (process_step_with_mutex failure.saga_instance_id failure.saga_step_instance_id)
          u
  unfolding Refusal
  turning v u d row same_id state (made, a) =
      let kin = After-lineage v u a d.closed ∙ d.later.2 in
      subst (λ i. Surely Refusal (process_step_with_mutex i failure.saga_step_instance_id) u)
        (sym refuses.0)
        (subst (λ i. Surely Refusal (process_step_with_mutex g i) u) (same_id ∙ sym refuses.1)
          (weaken-Outcome _ _ _ (process_step_with_mutex g row.instance_id) u
            (with_mutex-UndoDispatched g u before row after
              (row-Going u row made.0 made.1 (subst (ForwardHere row) (sym state) tt)
                (a.same_env ∙ d.later.0))
              (subst (Childless g) (sym kin) childless) state)
            (λ _ x waiting. record {
              row = row;
              same_id = same_id;
              refused = u;
              waiting = waiting;
              asked =
                  ap (map (λ r. r.saga_step_instance_id)) (a.same_published ∙ d.published)
                  ∙ ap (λ i. i ∷ asked_steps w) d.asked;
              same_env = a.same_env ∙ d.later.0;
              kin = kin;
            })))

  answered : (v : World) → Dispatched g before here after w v → Surely Refusal (resume failure) v
  answered v d =
      let row' = row_with_result g v before d.row after failure execution_failed false in
      bind-Outcome (λ _ u. Made (Becomes g running (before ++ row' ∷ after)) u × After v u) Refusal
        (λ _. ⊥) (process_saga_step_execution_result failure) _ v
        (answer-Recorded g v before d.row after
          (row-Going v d.row d.closed d.rows (subst (ForwardHere d.row) (sym d.runs) d.logged)
            d.later.0)
          failure execution_failed d.runs refuses.0 (refuses.1 ∙ sym d.same_id) refuses.2)
        (λ _ u h. turning v u d row' d.same_id refl h)

  step_course-Refused : Surely Refusal (step_course failure) w
  unfolding step_course
  step_course-Refused =
      let polled = λ (_ : Unit {0}) (v : World). Dispatched g before here after w v in
      bind-Outcome polled Refusal (λ _. ⊥)
        (poll_step failure.saga_instance_id failure.saga_step_instance_id) _ w
        (subst (λ i. Surely polled (poll_step i failure.saga_step_instance_id) w) (sym refuses.0)
          (subst (λ i. Surely polled (poll_step g i) w) (sym refuses.1)
            (poll_step-Dispatched g w before here after going candidate)))
        (λ _ v d. answered v d)

  -- No call fails and the clock does not go back. Saga `g` is RUNNING, has no child sagas, its
  -- steps stand in a forward picture, and the step that it has come to is EXECUTION_CANDIDATE.
  -- The polling visits the step, a refusal of its executor arrives, and processStepWithMutex
  -- visits the step again; then the success of its compensation arrives and processStepWithMutex
  -- visits it once more; then for each of the steps before it, the last first, the polling visits
  -- the step, the success of its compensation arrives and processStepWithMutex visits it again.
  -- The saga ends COMPENSATED: this step and those before it are COMPENSATION_DONE, those after it
  -- EXECUTION_ABORTED, and no transaction is open. The messages sent ask twice for this step and
  -- once for each of the others, in that order, and for no step after it.
  pub rollback_course-Returned :
      (undo : SagaStepExecutionResultPayload) (answers : List SagaStepExecutionResultPayload)
      → Succeeds g here undo
      → UndoneInTurn g before answers
      → Surely
          (λ _ v.
            Returned g
              (before ++ here ∷ [])
              (map (with_state execution_aborted) after)
              (asked_for answers (here.instance_id ∷ here.instance_id ∷ asked_steps w))
              v)
          (rollback_course failure undo answers)
          w
  unfolding rollback_course Refusal
  rollback_course-Returned undo answers succeeds turn =
      bind-Outcome Refusal _ (λ _. ⊥) (step_course failure) _ w step_course-Refused
        (λ _ v p.
          let u = p.refused in
          let aborted = map (with_state execution_aborted) after in
          let pending = map (with_state compensation_pending) before in
          let here' = with_state compensation_candidate p.row in
          let reliable = subst Reliable (sym p.same_env) going.reliable in
          let kin = subst (Childless g) (sym p.kin) childless in
          bind-Outcome (λ _ x. PassedBack g u pending here' aborted x) _ (λ _. ⊥) (resume undo) _ v
            (resume-PassedBack g pending here' aborted u reliable kin
              (Are-map compensation_pending before) (Undone-map after) undo
              (succeeds.0, succeeds.1 ∙ sym p.same_id, succeeds.2) v p.waiting)
            (λ _ x q.
              weaken-Outcome _ _ _ (course answers) x
                (course-Returned g (UndoneInTurn-map g turn) q.row aborted x q.closed q.rows
                  (Are-map compensation_pending before) (Undone-map after)
                  (subst (Childless g) (sym q.kin) kin) (subst Reliable (sym q.same_env) reliable))
                (λ _ y r. record {
                  undone = r.undone;
                  same_ids =
                      r.same_ids
                      ∙ ids_snoc pending before q.row here (ids-map before) (q.same_id ∙ p.same_id);
                  done = r.done;
                  chain = r.chain;
                  state = r.state;
                  closed = r.closed;
                  messages =
                      r.messages
                      ∙ ap (asked_for answers) (
                          q.asked
                          ∙ ap (λ i. i ∷ asked_steps u) p.same_id
                          ∙ ap (λ l. here.instance_id ∷ l) p.asked);
                })))
