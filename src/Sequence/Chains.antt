-- ===== src/Sequence/Chains.antt =====
-- Chains of steps, and lists of the same steps in another order.
use mathlib.Core.List.{Permᴰ}
use trax.Prelude.{
  suc, String, ◌≡◌, refl, ap, subst, ◌∙◌, inl, inr, true, false, Bool-cases, Option, none, some,
  List, [], ◌∷◌, ◌==◌, length, All, arith, eq_iff, eq_refl,
}
use trax.Model.{SagaStepInstance}
use trax.Sequence.{later_or, step_map}

-- No step of the list has the id.
abbrev pub Absent : String → List SagaStepInstance → Type 0
Absent id = All λ s. (s.instance_id == id) ≡ false

-- The steps have different ids.
abbrev pub Distinct : List SagaStepInstance → Type 0
Distinct [] = Unit
Distinct (s ∷ steps) = Absent s.instance_id steps × Distinct steps

-- A step does not start a chain.
abbrev pub NotFirst : SagaStepInstance → Type 0
NotFirst s = (s.previous_saga_step_instance_id == "") ≡ false

-- The step links to the first of the others, each of them to the one after it, and the last to none.
abbrev pub Follows : SagaStepInstance → List SagaStepInstance → Type 0
Follows s [] = s.next_saga_step_instance_id ≡ ""
Follows s (n ∷ rest) =
    (s.next_saga_step_instance_id ≡ n.instance_id)
    × ((n.instance_id == "") ≡ false)
    × NotFirst n
    × Follows n rest

-- A whole chain: only its first step has no previous one.
abbrev pub Linked : List SagaStepInstance → Type 0
Linked [] = Unit
Linked (s ∷ rest) = (s.previous_saga_step_instance_id ≡ "") × Follows s rest

module _ {ℓ} {A : Type ℓ} where
  pub All-Permᴰ : (P : A → Type 0) {a b : List A} → Permᴰ a b → All P a → All P b
  All-Permᴰ P Permᴰ.nil h = h
  All-Permᴰ P (Permᴰ.cons e p) h = (subst P e h.0, All-Permᴰ P p h.1)
  All-Permᴰ P (Permᴰ.swap e d) h = (subst P d h.1.0, (subst P e h.0, h.1.1))
  All-Permᴰ P (Permᴰ.trans p q) h = All-Permᴰ P q (All-Permᴰ P p h)

  pub length-Permᴰ : {a b : List A} → Permᴰ a b → length a ≡ length b
  length-Permᴰ Permᴰ.nil = refl
  length-Permᴰ (Permᴰ.cons e p) = ap suc (length-Permᴰ p)
  length-Permᴰ (Permᴰ.swap e d) = refl
  length-Permᴰ (Permᴰ.trans p q) = length-Permᴰ p ∙ length-Permᴰ q

apart_comm : (s t : String) → (s == t) ≡ false → (t == s) ≡ false
apart_comm s t h = ground (arith, eq_iff s t, eq_iff t s, eq_refl s)

Distinct-Permᴰ : {a b : List SagaStepInstance} → Permᴰ a b → Distinct a → Distinct b
Distinct-Permᴰ Permᴰ.nil h = h
Distinct-Permᴰ (Permᴰ.cons {a = s} {l₂ = l} e p) h = (
  subst (λ s. Absent s.instance_id l) e
      (All-Permᴰ (λ r. (r.instance_id == s.instance_id) ≡ false) p h.0),
  Distinct-Permᴰ p h.1,
)
Distinct-Permᴰ (Permᴰ.swap {a = a} {b = b} {b' = b'} {l = l} e d) h =
    subst (λ s. Distinct (s ∷ b' ∷ l)) d
      (subst (λ s. Distinct (b ∷ s ∷ l)) e
        ((apart_comm b.instance_id a.instance_id h.0.0, h.1.0), (h.0.1, h.1.1)))
Distinct-Permᴰ (Permᴰ.trans p q) h = Distinct-Permᴰ q (Distinct-Permᴰ p h)

later_or_swap :
    (a b : SagaStepInstance) (id : String) (o : Option SagaStepInstance)
    → (b.instance_id == a.instance_id) ≡ false
    → later_or a id (later_or b id o) ≡ later_or b id (later_or a id o)
later_or_swap a b id (some t) h = refl
later_or_swap a b id none h = elim (Bool-cases (b.instance_id == id)) [
  | inl e ↦ rw e (rw (other e) (rw e refl))
  | inr e ↦ elim (Bool-cases (a.instance_id == id)) [
    | inl d ↦ rw (e, d) refl
    | inr d ↦ rw (e, d) (rw e refl)
  ]
]
  where
    other : (b.instance_id == id) ≡ true → (a.instance_id == id) ≡ false
    other e =
        subst (λ i. (a.instance_id == i) ≡ false) ((eq_iff b.instance_id id).0 e)
          (apart_comm b.instance_id a.instance_id h)

-- A step is found in any order.
pub step_map-Permᴰ :
    {a b : List SagaStepInstance} (id : String)
    → Permᴰ a b
    → Distinct a
    → step_map a id ≡ step_map b id
unfolding step_map
step_map-Permᴰ id Permᴰ.nil h = refl
step_map-Permᴰ id (Permᴰ.cons {l₁ = l} e p) h =
    ap (λ s. later_or s id (step_map l id)) e ∙ ap (later_or _ id) (step_map-Permᴰ id p h.1)
step_map-Permᴰ id (Permᴰ.swap {a = a} {b = b} {b' = b'} {l = l} e d) h =
    later_or_swap a b id (step_map l id) h.0.0
    ∙ ap (λ s. later_or b id (later_or s id (step_map l id))) e
    ∙ ap (λ s. later_or s id (later_or b' id (step_map l id))) d
step_map-Permᴰ id (Permᴰ.trans p q) h =
    step_map-Permᴰ id p h ∙ step_map-Permᴰ id q (Distinct-Permᴰ p h)
