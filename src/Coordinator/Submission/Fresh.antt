-- ===== src/Coordinator/Submission/Fresh.antt =====
-- New steps that no stored row stands in the way of, and the chain that they are once stored.
use mathlib.Core.List.Permᴰ
use mathlib.Core.List.{append_assoc, append-nil}
use trax.Prelude.{
  String, ◌≡◌, refl, sym, ap, subst, ◌∙◌, Bool, true, false, some, List, [], ◌∷◌, ◌++◌, ◌==◌, ◌||◌,
  All, All-left, All-right, any, find?, keep, arith, eq_refl,
}
use trax.Model.{SagaStepInstance}
use trax.Sequence.Chains.{Absent, Distinct, Follows, Linked}
use trax.Sequence.Order.{order_saga_steps_in_sequence-Linked}
use trax.Store.{Tables}
use trax.Store.Rows.{step_row, steps_of_saga}
use trax.Store.Saving.{same_step}
use trax.Coordinator.Rules.Chain.{Chain, eq_comm}
use trax.Coordinator.Submission.{link_steps, head_id}

-- No row has the id or the key of the step.
abbrev pub Free : SagaStepInstance → List SagaStepInstance → Type 0
Free step = All λ s. same_step step s ≡ false

-- Each step is free among the rows and the steps before it.
abbrev pub Fresh : List SagaStepInstance → List SagaStepInstance → Type 0
Fresh [] rows = Unit
Fresh (s ∷ steps) rows = Free s rows × Fresh steps (rows ++ s ∷ [])

pub any-All {ℓ} :
    {A : Type ℓ} (p : A → Bool) (xs : List A) → All (λ x. p x ≡ false) xs → any p xs ≡ false
any-All p [] h = refl
any-All p (x ∷ xs) h = rw h.0 (any-All p xs h.1)

-- What is free of the rows is free of the last of them.
pub Fresh-right : (steps a b : List SagaStepInstance) → Fresh steps (a ++ b) → Fresh steps b
Fresh-right [] a b h = tt
Fresh-right (s ∷ steps) a b h = (
  All-right (λ r. same_step s r ≡ false) a b h.0,
  Fresh-right steps a (b ++ s ∷ []) (subst (Fresh steps) (append_assoc a b (s ∷ [])) h.1),
)

first_apart : (a b : Bool) → (a || b) ≡ false → a ≡ false
first_apart true b h = ground arith
first_apart false b h = refl

module _ {ℓ} {A : Type ℓ} where
  All-trivial : (P : A → Type 0) → ((x : A) → P x) → (xs : List A) → All P xs
  All-trivial P p [] = tt
  All-trivial P p (x ∷ xs) = (p x, All-trivial P p xs)

ids_apart :
    (step : SagaStepInstance) (rows : List SagaStepInstance)
    → Free step rows
    → Absent step.instance_id rows
ids_apart step [] h = tt
ids_apart step (s ∷ rows) h = (first_apart _ _ h.0, ids_apart step rows h.1)

-- What is stored already has other ids than the new steps.
stored_apart :
    (steps rows : List SagaStepInstance)
    → Fresh steps rows
    → All (λ r. Absent r.instance_id steps) rows
stored_apart [] rows h = All-trivial (λ r. Unit) (λ r. tt) rows
stored_apart (s ∷ steps) rows h = both rows (ids_apart s rows h.0) (
    All-left (λ r. Absent r.instance_id steps) rows (s ∷ [])
      (stored_apart steps (rows ++ s ∷ []) h.1))
  where
    both :
        (l : List SagaStepInstance)
        → Absent s.instance_id l
        → All (λ r. Absent r.instance_id steps) l
        → All (λ r. Absent r.instance_id (s ∷ steps)) l
    both [] a b = tt
    both (r ∷ l) a b = ((eq_comm _ _ a.0, b.0), both l a.1 b.1)

pub Fresh-Distinct : (steps rows : List SagaStepInstance) → Fresh steps rows → Distinct steps
Fresh-Distinct [] rows h = tt
Fresh-Distinct (s ∷ steps) rows h = (
  (All-right (λ r. Absent r.instance_id steps) rows (s ∷ [])
      (stored_apart steps (rows ++ s ∷ []) h.1)).0,
  Fresh-Distinct steps (rows ++ s ∷ []) h.1,
)

find_past :
    (s : SagaStepInstance) (rows rest : List SagaStepInstance)
    → Absent s.instance_id rows
    → find? (λ r. r.instance_id == s.instance_id) (rows ++ s ∷ rest) ≡ some s
find_past s [] rest h = rw (eq_refl s.instance_id) refl
find_past s (r ∷ rows) rest h = rw h.0 (find_past s rows rest h.1)

-- Each new step is found by its id.
pub Fresh-found :
    (steps rows : List SagaStepInstance)
    → Fresh steps rows
    → All (λ s. find? (λ r. r.instance_id == s.instance_id) (rows ++ steps) ≡ some s) steps
Fresh-found [] rows h = tt
Fresh-found (s ∷ steps) rows h = (
  find_past s rows steps (ids_apart s rows h.0),
  subst (λ l. All (λ r. find? (λ q. q.instance_id == r.instance_id) l ≡ some r) steps)
      (append_assoc rows (s ∷ []) steps) (Fresh-found steps (rows ++ s ∷ []) h.1),
)

-- A step of the saga.
abbrev pub Of : String → List SagaStepInstance → Type 0
Of g = All λ s. (s.saga_instance_id == g) ≡ true

-- No step is one of the saga.
abbrev pub NoneOf : String → List SagaStepInstance → Type 0
NoneOf g = All λ s. (s.saga_instance_id == g) ≡ false

keep_new :
    (g : String) (rows steps : List SagaStepInstance)
    → NoneOf g rows
    → Of g steps
    → keep (λ s. s.saga_instance_id == g) (rows ++ steps) ≡ steps
keep_new g [] [] n o = refl
keep_new g [] (s ∷ steps) n o = rw o.0 (ap (λ l. s ∷ l) (keep_new g [] steps n o.1))
keep_new g (r ∷ rows) steps n o = rw n.0 (keep_new g rows steps n.1 o)

abbrev pub Named : List SagaStepInstance → Type 0
Named = All λ s. (s.instance_id == "") ≡ false

link_steps-Follows :
    (s : SagaStepInstance) (steps : List SagaStepInstance)
    → Named (s ∷ steps)
    → (previous : String)
    → Follows
        (record s {
          previous_saga_step_instance_id = previous;
          next_saga_step_instance_id = head_id steps;
        })
        (link_steps s.instance_id steps)
unfolding link_steps
link_steps-Follows s [] n previous = refl
link_steps-Follows s (r ∷ steps) n previous =
    (refl, n.1.0, n.0, link_steps-Follows r steps n.1 s.instance_id)

pub link_steps-Linked : (steps : List SagaStepInstance) → Named steps → Linked (link_steps "" steps)
unfolding link_steps
link_steps-Linked [] n = tt
link_steps-Linked (s ∷ steps) n = (refl, link_steps-Follows s steps n "")

-- New steps that are linked are the chain of their saga once they are stored.
pub Fresh-Chain :
    (g : String) (t u : Tables) (steps : List SagaStepInstance)
    → u.steps ≡ t.steps ++ steps
    → Fresh steps t.steps
    → NoneOf g t.steps
    → Of g steps
    → Linked steps
    → Chain g u steps
unfolding step_row steps_of_saga
Fresh-Chain g t u steps e fresh none_of of linked = record {
  ordered =
      rw read (order_saga_steps_in_sequence-Linked steps steps linked distinct (Permᴰ.refl steps));
  distinct = distinct;
  rows =
      subst (λ l. All (λ s. find? (λ r. r.instance_id == s.instance_id) l ≡ some s) steps) (sym e)
        (Fresh-found steps t.steps fresh);
  listed =
      subst (λ l. All (λ s. find? (λ r. r.instance_id == s.instance_id) l ≡ some s) steps)
        (sym read)
        (Fresh-found steps []
          (Fresh-right steps t.steps [] (subst (Fresh steps) (sym (append-nil t.steps)) fresh)));
}
  where
    distinct : Distinct steps
    distinct = Fresh-Distinct steps t.steps fresh

    read : keep (λ s. s.saga_instance_id == g) u.steps ≡ steps
    read = ap (keep (λ s. s.saga_instance_id == g)) e ∙ keep_new g t.steps steps none_of of
