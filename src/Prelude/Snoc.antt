-- ===== src/Prelude/Snoc.antt =====
-- Lists taken apart at the last element.
use mathlib.Core.Path.{◌≡◌, refl}
use mathlib.Core.Option.{some}
use mathlib.Core.List.{List, [], ◌∷◌, ◌++◌}
use trax.Prelude.Lists.{get_last?, All}

-- A list is empty or has a last element.
pub data Ends {ℓ} {A : Type ℓ} : List A → Type ℓ where
  empty : Ends []
  ends_in : (xs : List A) (x : A) → Ends (xs ++ x ∷ [])

Ends-after {ℓ} : {A : Type ℓ} (x : A) {xs : List A} → Ends xs → Ends (x ∷ xs)
Ends-after x empty = ends_in [] x
Ends-after x (ends_in xs y) = ends_in (x ∷ xs) y

pub ends {ℓ} : {A : Type ℓ} (xs : List A) → Ends xs
ends [] = empty
ends (x ∷ xs) = Ends-after x (ends xs)

pub get_last?-append {ℓ} : {A : Type ℓ} (xs : List A) (x : A) → get_last? (xs ++ x ∷ []) ≡ some x
get_last?-append [] x = refl
get_last?-append (y ∷ []) x = refl
get_last?-append (y ∷ z ∷ xs) x = get_last?-append (z ∷ xs) x

pub All-init {ℓ} :
    {A : Type ℓ} (P : A → Type 0) (xs : List A) (x : A) → All P (xs ++ x ∷ []) → All P xs × P x
All-init P [] x h = (tt, h.0)
All-init P (y ∷ xs) x h = let (a, b) = All-init P xs x h.1 in ((h.0, a), b)
