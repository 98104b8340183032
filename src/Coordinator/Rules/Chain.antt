-- ===== src/Coordinator/Rules/Chain.antt =====
-- The steps of one saga as the coordinator sees them: in order, each with a row of its own.
use mathlib.Core.Option
use trax.Prelude.{
  String, ◌≡◌, refl, ap, ◌∙◌, false, Option, some, List, [], ◌∷◌, ◌++◌, map, ◌==◌, arith, find?,
  All, eq_iff, eq_refl,
}
use trax.Model.{SagaStepInstance}
use trax.Sequence.{order_saga_steps_in_sequence}
use trax.Sequence.Chains.{Absent, Distinct}
use trax.Sequence.Natural.{SameLinks, order-map}
use trax.Validation.{locate}
use trax.Store.{Tables}
use trax.Store.Rows.{at_id, update_steps, step_row, steps_of_saga}
use trax.Store.Laws.{
  at_id-SameLinks, steps_of_saga-update_steps, find_id-map, step_row-update_steps,
}

abbrev pub listed_as : String → Tables → SagaStepInstance → Option SagaStepInstance
listed_as g t s = find? (λ r. r.instance_id == s.instance_id) (steps_of_saga g t)

-- The steps of saga `g` are the list, in order; each is found by its id.
pub record Chain (g : String) (t : Tables) (steps : List SagaStepInstance) : Type 0 where
  pub ordered : order_saga_steps_in_sequence (steps_of_saga g t) ≡ some steps
  pub distinct : Distinct steps
  pub rows : All (λ s. step_row s.instance_id t ≡ some s) steps
  pub listed : All (λ s. listed_as g t s ≡ some s) steps

Absent-map :
    (f : SagaStepInstance → SagaStepInstance) (links : (s : SagaStepInstance) → SameLinks (f s) s)
    (id : String) (steps : List SagaStepInstance)
    → Absent id steps
    → Absent id (map f steps)
Absent-map f links id [] h = tt
Absent-map f links id (s ∷ steps) h =
    (ground (arith, (links s).same_id, h.0), Absent-map f links id steps h.1)

Distinct-map :
    (f : SagaStepInstance → SagaStepInstance) (links : (s : SagaStepInstance) → SameLinks (f s) s)
    (steps : List SagaStepInstance)
    → Distinct steps
    → Distinct (map f steps)
Distinct-map f links [] h = tt
Distinct-map f links (s ∷ steps) h = (
  ground (arith, (links s).same_id, Absent-map f links s.instance_id steps h.0),
  Distinct-map f links steps h.1,
)

-- What is found of a step is found, changed, of the changed step.
All-found :
    (f : SagaStepInstance → SagaStepInstance) (links : (s : SagaStepInstance) → SameLinks (f s) s)
    (before after : String → Option SagaStepInstance)
    → ((j : String) → after j ≡ Option.map f (before j))
    → (steps : List SagaStepInstance) → All (λ s. before s.instance_id ≡ some s) steps
    → All (λ s. after s.instance_id ≡ some s) (map f steps)
All-found f links before after step [] h = tt
All-found f links before after step (s ∷ steps) h = (
  ap after (links s).same_id ∙ step s.instance_id ∙ ap (Option.map f) h.0,
  All-found f links before after step steps h.1,
)

module _ (f : SagaStepInstance → SagaStepInstance)
    (links : (s : SagaStepInstance) → SameLinks (f s) s) where
  -- A change of one row changes the chain in the same way.
  pub Chain-update :
      (g id : String) (t : Tables) (steps : List SagaStepInstance)
      → Chain g t steps
      → Chain g (update_steps id f t) (map (at_id id f) steps)
  Chain-update g id t steps c = record {
    ordered =
        ap order_saga_steps_in_sequence (steps_of_saga-update_steps f links id g t)
        ∙ order-map (at_id id f) links' (steps_of_saga g t)
        ∙ ap (Option.map (map (at_id id f))) c.ordered;
    distinct = Distinct-map (at_id id f) links' steps c.distinct;
    rows =
        All-found (at_id id f) links' (λ j. step_row j t) (λ j. step_row j (update_steps id f t))
          (λ j. step_row-update_steps f links id j t) steps c.rows;
    listed =
        All-found (at_id id f) links' (λ j. find? (λ r. r.instance_id == j) (steps_of_saga g t))
          (λ j. find? (λ r. r.instance_id == j) (steps_of_saga g (update_steps id f t)))
          (λ j.
            ap (find? (λ r. r.instance_id == j)) (steps_of_saga-update_steps f links id g t)
            ∙ find_id-map f links id j (steps_of_saga g t))
          steps c.listed;
  }
    where
      links' : (s : SagaStepInstance) → SameLinks (at_id id f s) s
      links' = at_id-SameLinks f links id

at_id-Absent :
    (f : SagaStepInstance → SagaStepInstance) (id : String) (steps : List SagaStepInstance)
    → Absent id steps
    → map (at_id id f) steps ≡ steps
at_id-Absent f id [] h = refl
at_id-Absent f id (s ∷ steps) h = ground (arith, at_id-Absent f id steps h.1, h.0)

pub eq_comm : (s t : String) → (s == t) ≡ false → (t == s) ≡ false
eq_comm s t h = ground (arith, eq_iff s t, eq_iff t s)

-- In a list of distinct steps only the step itself has its id.
pub Distinct-at :
    (before : List SagaStepInstance) (here : SagaStepInstance) (after : List SagaStepInstance)
    → Distinct (before ++ here ∷ after)
    → Absent here.instance_id before × Absent here.instance_id after
Distinct-at [] here after h = (tt, h.0)
Distinct-at (s ∷ before) here after h =
    let (b, a) = Distinct-at before here after h.1 in ((eq_comm _ _ (middle before h.0), b), a)
  where
    middle :
        (l : List SagaStepInstance)
        → Absent s.instance_id (l ++ here ∷ after)
        → (here.instance_id == s.instance_id) ≡ false
    middle [] k = k.0
    middle (r ∷ l) k = middle l k.1

pub map-at_id :
    (f : SagaStepInstance → SagaStepInstance) (before : List SagaStepInstance)
    (here : SagaStepInstance) (after : List SagaStepInstance)
    → Absent here.instance_id before × Absent here.instance_id after
    → map (at_id here.instance_id f) (before ++ here ∷ after) ≡ before ++ f here ∷ after
map-at_id f [] here after h =
    rw (at_id-Absent f here.instance_id after h.1) (rw (eq_refl here.instance_id) refl)
map-at_id f (s ∷ before) here after h =
    ground (arith, map-at_id f before here after (h.0.1, h.1), h.0.0)

pub locate_lem :
    (before : List SagaStepInstance) (here : SagaStepInstance) (after : List SagaStepInstance)
    → Absent here.instance_id before
    → locate here.instance_id (before ++ here ∷ after)
      ≡ some (record { before = before; here = here; after = after })
unfolding locate
locate_lem [] here after h = rw (eq_refl here.instance_id) refl
locate_lem (s ∷ before) here after h = ground (arith, locate_lem before here after h.1, h.0)
