-- ===== src/Coordinator/Course/Committed.antt =====
-- A saga all of whose steps succeed is committed.
use trax.Prelude.{
  String, ◌≡◌, refl, sym, ap, subst, ◌∙◌, none, some, List, [], ◌∷◌, ◌++◌, All-append,
}
use trax.State.{committed, execution_candidate, execution_done}
use trax.Model.{SagaStepInstance}
use trax.Store.{World, pure}
use trax.Store.Rows.{with_state}
use trax.Store.Outcome.{bind-Outcome, weaken-Outcome}
use trax.Coordinator.Course.{step_course, course}
use trax.Coordinator.Process.Rounds.{Reliable, Surely}
use trax.Coordinator.Process.Visit.{Going}
use trax.Coordinator.Result.{SagaStepExecutionResultPayload}
use trax.Coordinator.Rules.Chain.{Chain}
use trax.Coordinator.Rules.Transitions.{saga_state}
use trax.Coordinator.Rules.Zipper.{move_on}
use trax.Coordinator.Soundness.Shapes.{Are}
use trax.Coordinator.Course.Passed.{
  ids, asked_steps, AllSucceed, Passed, PassedAt, step_course-Passed,
}

-- A step with the same id in the place of another.
ids_at :
    (before : List SagaStepInstance) (here row : SagaStepInstance)
    (after after' : List SagaStepInstance)
    → row.instance_id ≡ here.instance_id
    → ids after' ≡ ids after
    → ids (before ++ row ∷ after') ≡ ids (before ++ here ∷ after)
ids_at [] here row after after' e h = rw (e, h) refl
ids_at (s ∷ before) here row after after' e h =
    ap (λ l. s.instance_id ∷ l) (ids_at before here row after after' e h)

-- Some steps were asked for, one after the other.
abbrev pub asked_in_turn : List SagaStepInstance → List String → List String
asked_in_turn [] l = l
asked_in_turn (s ∷ steps) l = asked_in_turn steps (s.instance_id ∷ l)

-- The saga is COMMITTED and all of its steps are done. Each of the steps that were left was asked
-- for once, in their order, and no other.
pub record Finished (g : String) (steps left : List SagaStepInstance) (w v : World) : Type 0 where
  pub rows : List SagaStepInstance
  pub same_ids : ids rows ≡ ids steps
  pub done : Are execution_done rows
  pub chain : Chain g v.tables rows
  pub state : saga_state g v.tables ≡ some committed
  pub closed : v.saved ≡ none
  pub asked : asked_steps v ≡ asked_in_turn left (asked_steps w)

next-Going :
    (g : String) (before : List SagaStepInstance) (here next : SagaStepInstance)
    (after : List SagaStepInstance) (w v : World)
    → Going g w before here (next ∷ after)
    → (p : Passed g w before here (next ∷ after) v)
    → Going g v
        (before ++ with_state execution_done p.row ∷ [])
        (with_state execution_candidate next)
        after
next-Going g before here next after w v going p = record {
  closed = p.closed;
  chain =
      subst (Chain g v.tables)
        (sym (
          move_on before (with_state execution_done p.row) (with_state execution_candidate next)
            after))
        p.rows.1;
  row = p.rows.2;
  forward = record {
    done = All-append _ before _ going.forward.done (refl, tt);
    active = going.forward.waiting.0.1;
    waiting = going.forward.waiting.1;
  };
  reliable = subst Reliable (sym p.same_env) going.reliable;
}

-- No call fails and the clock does not go back. Saga `g` is RUNNING, its steps stand in a forward
-- picture, and the step that it has come to is EXECUTION_CANDIDATE. For this step and each of the
-- next ones there is one answer, a success, in their order. Where for one step after the other the
-- polling visits the step, its answer arrives, and processStepWithMutex visits the step again, the
-- saga ends COMMITTED, with the same steps, all of them EXECUTION_DONE, and no transaction open.
-- The messages sent ask for each of these steps once, in their order.
pub course-Finished :
    (g : String) (before : List SagaStepInstance) (here : SagaStepInstance)
    (after : List SagaStepInstance) (w : World) (answers : List SagaStepExecutionResultPayload)
    → Going g w before here after
    → here.state ≡ execution_candidate
    → AllSucceed g (here ∷ after) answers
    → Surely (λ _ v. Finished g (before ++ here ∷ after) (here ∷ after) w v) (course answers) w
unfolding course pure
course-Finished g before here after w [] going candidate succeed = absurd succeed
course-Finished g before here [] w (answer ∷ answers) going candidate succeed =
    bind-Outcome (PassedAt g before here [] w going candidate answer succeed.0) _ (λ _. ⊥)
      (step_course answer) _ w
      (step_course-Passed g before here [] w going candidate answer succeed.0)
      (λ _ v p. finish answers succeed.1 v p)
  where
    finish :
        (answers : List SagaStepExecutionResultPayload)
        → AllSucceed g [] answers
        → (v : World) → Passed g w before here [] v
        → Surely (λ _ v. Finished g (before ++ here ∷ []) (here ∷ []) w v) (course answers) v
    finish [] _ v p = record {
      rows = before ++ with_state execution_done p.row ∷ [];
      same_ids = ids_at before here (with_state execution_done p.row) [] [] p.same_id refl;
      done = All-append _ before _ going.forward.done (refl, tt);
      chain = p.rows.1;
      state = p.rows.2;
      closed = p.closed;
      asked = p.asked;
    }
    finish (answer ∷ answers) h v p = absurd h
course-Finished g before here (next ∷ after) w (answer ∷ answers) going candidate succeed =
    bind-Outcome (PassedAt g before here (next ∷ after) w going candidate answer succeed.0) _
      (λ _. ⊥) (step_course answer) _ w
      (step_course-Passed g before here (next ∷ after) w going candidate answer succeed.0)
      (λ _ v p.
        weaken-Outcome _ _ _ (course answers) v
          (course-Finished g (before ++ with_state execution_done p.row ∷ [])
            (with_state execution_candidate next) after v answers
            (next-Going g before here next after w v going p) refl succeed.1)
          (λ _ u f. record {
            rows = f.rows;
            same_ids =
                f.same_ids
                ∙ ap ids (
                    move_on before (with_state execution_done p.row)
                      (with_state execution_candidate next) after)
                ∙ ids_at before here (with_state execution_done p.row) (next ∷ after)
                    (with_state execution_candidate next ∷ after) p.same_id refl;
            done = f.done;
            chain = f.chain;
            state = f.state;
            closed = f.closed;
            asked = f.asked ∙ ap (asked_in_turn (next ∷ after)) p.asked;
          }))
