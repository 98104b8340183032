-- ===== src/Store/Quiet/Calls.antt =====
-- The calls of the store send no message.
use trax.Prelude.{
  ◌≡◌, refl, sym, ◌∙◌, String, arith, suc, if◌then◌else◌, true, false, Bool, Bool-cases, inl, inr,
  Option, none, some, List, [], ◌∷◌, map, ◌==◌, find?,
}
use trax.State.{SagaState, SagaStepState}
use trax.Model.{SagaInstance, SagaStepInstance}
use trax.Store.{Tables, World, exit, gets, modify, attempt, ◌>>=◌}
use trax.Store.Rows.{
  in_state, update_if_state, with_saga_state, update_sagas, update_steps, set_saga_state,
  set_step_state, set_step_history,
}
use trax.Store.Calls.{
  affected, query, execute, on_tables, update_saga_state, update_saga_step_state,
  update_saga_step_execution_history, get_saga_instance, get_saga_step_instance,
  list_saga_step_instances,
}
use trax.Store.Quiet.{
  lineage, AnchoredTo, After, After-refl, After-rows, Quiet, Quiet-bind, Quiet-attempt, quiet_rules,
}

module _ {ℓ} {A : Type ℓ} where
  pub query-Quiet : (f : Tables → A) → Quiet (query f)
  unfolding query
  query-Quiet f = search quiet_rules

along-AnchoredTo :
    (o : Option Tables) (l l' : List String) → l ≡ l' → AnchoredTo o l → AnchoredTo o l'
along-AnchoredTo none l l' e a = tt
along-AnchoredTo (some t) l l' e a = a ∙ e

pub execute-Quiet :
    (f : Tables → Tables) → ((t : Tables) → lineage (f t) ≡ lineage t) → Quiet (execute f)
unfolding execute modify
execute-Quiet f keeps = Quiet-bind _ _ Quiet-attempt (λ _. written)
  where
    written : Quiet (modify (on_tables f))
    written = record {
      at = λ w. record {
        same_env = refl;
        no_earlier = omega arith;
        same_published = refl;
        same_lineage = λ a. (keeps w.tables, along-AnchoredTo w.saved _ _ (sym (keeps w.tables)) a);
      };
    }

-- A change of the rows of the sagas that keeps their parents.
map-parents :
    (f : SagaInstance → SagaInstance)
    → ((s : SagaInstance) → (f s).parent_saga_instance_id ≡ s.parent_saga_instance_id)
    → (l : List SagaInstance)
    → map (λ s. s.parent_saga_instance_id) (map f l) ≡ map (λ s. s.parent_saga_instance_id) l
map-parents f same [] = refl
map-parents f same (s ∷ l) = rw (same s, map-parents f same l) refl

map-parents_where :
    (p : SagaInstance → Bool) (f : SagaInstance → SagaInstance)
    → ((s : SagaInstance) → (f s).parent_saga_instance_id ≡ s.parent_saga_instance_id)
    → (l : List SagaInstance)
    → map (λ s. s.parent_saga_instance_id) (map (λ s. if p s then f s else s) l)
      ≡ map (λ s. s.parent_saga_instance_id) l
map-parents_where p f same l = map-parents (λ s. if p s then f s else s) each l
  where
    either :
        (b : Bool) (s : SagaInstance)
        → (if b then f s else s).parent_saga_instance_id ≡ s.parent_saga_instance_id
    either true s = same s
    either false s = refl

    each :
        (s : SagaInstance)
        → (if p s then f s else s).parent_saga_instance_id ≡ s.parent_saga_instance_id
    each s = either (p s) s

set_saga_state-lineage :
    (saga : SagaInstance) (state : SagaState) (t : Tables)
    → lineage (set_saga_state saga state t) ≡ lineage t
unfolding set_saga_state update_sagas
set_saga_state-lineage saga state t =
    map-parents_where (λ s. s.instance_id == saga.instance_id) (with_saga_state saga state)
      (λ s. refl) t.sagas

pub update_saga_state-Quiet : (state : SagaState) → Quiet (update_saga_state state)
unfolding update_saga_state
update_saga_state-Quiet state = search (quiet_rules, execute-Quiet, set_saga_state-lineage)

pub update_saga_step_state-Quiet :
    (step : SagaStepInstance) (state : SagaStepState) → Quiet (update_saga_step_state step state)
unfolding update_saga_step_state set_step_state update_steps
update_saga_step_state-Quiet step state = execute-Quiet _ (λ t. refl)

pub update_history-Quiet :
    (step : SagaStepInstance) → Quiet (update_saga_step_execution_history step)
unfolding update_saga_step_execution_history set_step_history update_steps
update_history-Quiet step = execute-Quiet _ (λ t. refl)

pub get_saga_instance-Quiet : (id : String) → Quiet (get_saga_instance id)
unfolding get_saga_instance
get_saga_instance-Quiet id = search (quiet_rules, query-Quiet)

pub get_saga_step_instance-Quiet : (id : String) → Quiet (get_saga_step_instance id)
unfolding get_saga_step_instance
get_saga_step_instance-Quiet id = search (quiet_rules, query-Quiet)

pub list_saga_step_instances-Quiet : (id : String) → Quiet (list_saga_step_instances id)
unfolding list_saga_step_instances
list_saga_step_instances-Quiet id = search (quiet_rules, query-Quiet)

pub ruleset call_rules = (
  quiet_rules, query-Quiet, execute-Quiet, update_saga_state-Quiet, update_saga_step_state-Quiet,
  update_history-Quiet, get_saga_instance-Quiet, get_saga_step_instance-Quiet,
  list_saga_step_instances-Quiet,
)

-- A conditional update of one saga that keeps its parent.
pub update_where-Quiet :
    (id : String) (state : SagaState) (f : SagaInstance → SagaInstance)
    → ((s : SagaInstance) → (f s).parent_saga_instance_id ≡ s.parent_saga_instance_id)
    → Quiet (query (update_if_state id state f) >>= affected)
unfolding query update_if_state ◌>>=◌ attempt gets modify exit
update_where-Quiet id state f same = record {
  at = λ w. elim (Bool-cases (w.env.fails w.calls)) [
    | inl e ↦ rw e (After-rows w _ refl (omega arith) refl refl refl)
    | inr e ↦ rw e (updated w (find? (in_state id state) w.tables.sagas))
  ];
}
  where
    updated :
        (w : World) (o : Option SagaInstance)
        → After w
            (affected
              (elim o [
                | none ↦ none
                | some _ ↦ some (record w.tables {
                  sagas = map (λ s. if in_state id state s then f s else s) w.tables.sagas;
                })
              ])
              (record w { calls = suc w.calls })).1
    updated w none = After-rows w _ refl (omega arith) refl refl refl
    updated w (some s) = record {
      same_env = refl;
      no_earlier = omega arith;
      same_published = refl;
      same_lineage = λ a.
          let same_parents = map-parents_where (in_state id state) f same w.tables.sagas in
          (same_parents, along-AnchoredTo w.saved _ _ (sym same_parents) a);
    }
