-- ===== src/Sequence/Order.antt =====
-- OrderSagaStepsInSequence of pkg/trax/coordinator.go on the steps of a chain in any order.
use mathlib.Core.List.Permᴰ
use mathlib.Core.List.{Permᴰ, append_assoc}
use trax.Prelude.{
  suc, String, ◌≡◌, refl, sym, ap, subst, ◌∙◌, ◌⊎◌, inl, inr, true, false, Bool-cases, none, some,
  List, [], ◌∷◌, ◌++◌, ◌==◌, length, if◌then◌else◌, All, arith, eq_refl,
}
use trax.Model.{SagaStepInstance}
use trax.Sequence.{step_map, next_step, follow, first_step, order_saga_steps_in_sequence}
use trax.Sequence.Chains.{
  Absent, Distinct, NotFirst, Follows, Linked, All-Permᴰ, length-Permᴰ, step_map-Permᴰ,
}

step_map-Absent : (id : String) (l : List SagaStepInstance) → Absent id l → step_map l id ≡ none
unfolding step_map
step_map-Absent id [] h = refl
step_map-Absent id (s ∷ l) h = rw (step_map-Absent id l h.1) (rw h.0 refl)

step_map-append :
    (id : String) (before l : List SagaStepInstance) (s : SagaStepInstance)
    → step_map l id ≡ some s
    → step_map (before ++ l) id ≡ some s
unfolding step_map
step_map-append id [] l s h = h
step_map-append id (r ∷ before) l s h = rw (step_map-append id before l s h) refl

-- Every step of a list with different ids is found by its id.
lookups :
    (before l : List SagaStepInstance)
    → Distinct l
    → All (λ s. step_map (before ++ l) s.instance_id ≡ some s) l
unfolding step_map
lookups before [] h = tt
lookups before (s ∷ l) h = (
  step_map-append s.instance_id before (s ∷ l) s
      (rw (step_map-Absent s.instance_id l h.0) (rw (eq_refl s.instance_id) refl)),
  subst (λ m. All (λ s. step_map m s.instance_id ≡ some s) l) (append_assoc before (s ∷ []) l)
      (lookups (before ++ s ∷ []) l h.1),
)

next_step-some :
    (steps : List SagaStepInstance) (s n : SagaStepInstance)
    → s.next_saga_step_instance_id ≡ n.instance_id
    → (n.instance_id == "") ≡ false
    → step_map steps n.instance_id ≡ some n
    → next_step steps s ≡ some n
unfolding next_step
next_step-some steps s n e named found =
    subst (λ i. (if i == "" then none else step_map steps i) ≡ some n) (sym e) (rw named found)

next_step-none :
    (steps : List SagaStepInstance) (s : SagaStepInstance)
    → s.next_saga_step_instance_id ≡ ""
    → next_step steps s ≡ none
unfolding next_step
next_step-none steps s e =
    subst (λ i. (if i == "" then none else step_map steps i) ≡ none) (sym e) refl

-- The walk along a chain whose steps are found.
follow-Follows :
    (steps : List SagaStepInstance) (s : SagaStepInstance) (rest : List SagaStepInstance)
    → Follows s rest
    → All (λ s. step_map steps s.instance_id ≡ some s) rest
    → follow (suc (length rest)) steps s ≡ some (s ∷ rest)
unfolding follow
follow-Follows steps s [] h found = rw (next_step-none steps s h, follow) refl
follow-Follows steps s (n ∷ rest) h found =
    rw (next_step-some steps s n h.0 h.1 found.0, follow)
      (rw (follow-Follows steps n rest h.3 found.1) refl)

NotFirst-rest :
    (s : SagaStepInstance) (rest : List SagaStepInstance) → Follows s rest → All NotFirst rest
NotFirst-rest s [] h = tt
NotFirst-rest s (n ∷ rest) h = (h.2, NotFirst-rest n rest h.3)

-- The only step that starts a chain is found first.
first_or_none :
    (s : SagaStepInstance) (steps : List SagaStepInstance)
    → All (λ r. NotFirst r ⊎ (r ≡ s)) steps
    → (All NotFirst steps) ⊎ (first_step steps ≡ some s)
unfolding first_step
first_or_none s [] h = inl tt
first_or_none s (r ∷ steps) h = elim (Bool-cases (r.previous_saga_step_instance_id == "")) [
  | inl e ↦ inr (rw e (ap some (is_first h.0 e)))
  | inr e ↦ elim (first_or_none s steps h.1) [
    | inl none_first ↦ inl (e, none_first)
    | inr found ↦ inr (rw e found)
  ]
]
  where
    is_first : NotFirst r ⊎ (r ≡ s) → (r.previous_saga_step_instance_id == "") ≡ true → r ≡ s
    is_first (inl a) e = ground (arith, a, e)
    is_first (inr a) e = a

All-left :
    (s : SagaStepInstance) (steps : List SagaStepInstance)
    → All NotFirst steps
    → All (λ r. NotFirst r ⊎ (r ≡ s)) steps
All-left s [] h = tt
All-left s (r ∷ steps) h = (inl h.0, All-left s steps h.1)

order_empty :
    (steps : List SagaStepInstance)
    → 0 ≡ length steps
    → order_saga_steps_in_sequence steps ≡ some []
unfolding order_saga_steps_in_sequence first_step
order_empty [] h = refl
order_empty (s ∷ steps) h = ground (arith, h)

module _ {chain steps : List SagaStepInstance} (distinct : Distinct chain)
    (p : Permᴰ chain steps) where
  found_in :
      (l : List SagaStepInstance)
      → All (λ s. step_map chain s.instance_id ≡ some s) l
      → All (λ s. step_map steps s.instance_id ≡ some s) l
  found_in [] h = tt
  found_in (s ∷ l) h = (sym (step_map-Permᴰ s.instance_id p distinct) ∙ h.0, found_in l h.1)

first_step-Linked :
    (s : SagaStepInstance) (rest steps : List SagaStepInstance)
    → Linked (s ∷ rest)
    → Permᴰ (s ∷ rest) steps
    → first_step steps ≡ some s
first_step-Linked s rest steps linked p =
    elim (first_or_none s steps (
      All-Permᴰ (λ r. NotFirst r ⊎ (r ≡ s)) p
        (inr refl, All-left s rest (NotFirst-rest s rest linked.1)))) [
          | inl none_first ↦ absurd (impossible (All-Permᴰ NotFirst (Permᴰ.symm p) none_first).0)
          | inr found ↦ found
        ]
  where
    impossible : NotFirst s → ⊥
    impossible h = ground (arith, subst (λ i. (i == "") ≡ false) linked.0 h, eq_refl "")

-- The steps of a chain that have different ids, in whatever order they are read, are put in the
-- order of the chain.
pub order_saga_steps_in_sequence-Linked :
    (chain steps : List SagaStepInstance)
    → Linked chain
    → Distinct chain
    → Permᴰ chain steps
    → order_saga_steps_in_sequence steps ≡ some chain
unfolding order_saga_steps_in_sequence
order_saga_steps_in_sequence-Linked [] steps linked distinct p = order_empty steps (length-Permᴰ p)
order_saga_steps_in_sequence-Linked (s ∷ rest) steps linked distinct p =
    rw (first_step-Linked s rest steps linked p, order_saga_steps_in_sequence)
      (subst (λ n. follow n steps s ≡ some (s ∷ rest)) (length-Permᴰ p)
        (follow-Follows steps s rest linked.1
          (found_in distinct p rest (lookups [] (s ∷ rest) distinct).1)))
