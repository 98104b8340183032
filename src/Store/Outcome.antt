-- ===== src/Store/Outcome.antt =====
-- Rules for the effects of a handler: what must hold so that it ends in one of the wanted ways.
use trax.Prelude.{false, ℕ, suc, ◌≡◌, inl, inr, Bool, true, Bool-cases, if◌then◌else◌}
use trax.Store.{
  Tables, World, Exit, ok, stop, invalidate, panicked, hangs, M, pure, gets, modify, attempt,
  continue, ◌>>=◌,
}
use trax.Store.Calls.{query, execute, on_tables}

-- A handler ends well with `Q`, or stops with `F`. It does not ask for the saga to be marked
-- invalid, panic, or loop for ever.
abbrev pub Outcome {ℓ} :
    {A : Type ℓ} → (A → World → Type 0) → (World → Type 0) → Exit A × World → Type 0
Outcome Q F (ok a, w) = Q a w
Outcome Q F (stop, w) = F w
Outcome Q F (invalidate, w) = ⊥
Outcome Q F (panicked, w) = ⊥
Outcome Q F (hangs, w) = ⊥

module _ {ℓ κ} {A : Type ℓ} {B : Type κ} where
  continue-Outcome :
      (Q : A → World → Type 0) (R : B → World → Type 0) (F : World → Type 0) (f : A → M B)
      (e : Exit A) (w : World)
      → Outcome Q F (e, w)
      → ((a : A) (v : World) → Q a v → Outcome R F (f a v))
      → Outcome R F (continue e f w)
  continue-Outcome Q R F f (ok a) w h k = k a w h
  continue-Outcome Q R F f stop w h k = h
  continue-Outcome Q R F f invalidate w h k = h
  continue-Outcome Q R F f panicked w h k = h
  continue-Outcome Q R F f hangs w h k = h

  pub bind-Outcome :
      (Q : A → World → Type 0) (R : B → World → Type 0) (F : World → Type 0) (m : M A) (f : A → M B)
      (w : World)
      → Outcome Q F (m w)
      → ((a : A) (v : World) → Q a v → Outcome R F (f a v))
      → Outcome R F ((m >>= f) w)
  unfolding ◌>>=◌
  bind-Outcome Q R F m f w h k = continue-Outcome Q R F f (m w).0 (m w).1 h k

-- Some call of the environment fails.
abbrev pub Failed : World → Type 0
Failed w = (n : ℕ) × (w.env.fails n ≡ true)

-- The world after a call.
abbrev pub tick : World → World
tick w = record w { calls = suc w.calls }

module _ {ℓ κ} {A : Type ℓ} {B : Type κ} (R : B → World → Type 0) (F : World → Type 0) where
  pub query-Outcome :
      (f : Tables → A) (k : A → M B) (w : World)
      → (Failed w → F (tick w))
      → Outcome R F (k (f w.tables) (tick w))
      → Outcome R F ((query f >>= k) w)
  unfolding query ◌>>=◌ attempt gets
  query-Outcome f k w failed h = elim (Bool-cases (w.env.fails w.calls)) [
    | inl e ↦ rw e (failed (w.calls, e))
    | inr e ↦ rw e h
  ]

module _ {κ} {B : Type κ} (R : B → World → Type 0) (F : World → Type 0) where
  pub execute-Outcome :
      (f : Tables → Tables) (k : Unit {0} → M B) (w : World)
      → (Failed w → F (tick w))
      → Outcome R F (k tt (on_tables f (tick w)))
      → Outcome R F ((execute f >>= k) w)
  unfolding execute ◌>>=◌ attempt modify
  execute-Outcome f k w failed h = elim (Bool-cases (w.env.fails w.calls)) [
    | inl e ↦ rw e (failed (w.calls, e))
    | inr e ↦ rw e h
  ]

  pub attempt-Outcome :
      (k : Unit {0} → M B) (w : World)
      → (Failed w → F (tick w))
      → Outcome R F (k tt (tick w))
      → Outcome R F ((attempt >>= k) w)
  unfolding ◌>>=◌ attempt
  attempt-Outcome k w failed h = elim (Bool-cases (w.env.fails w.calls)) [
    | inl e ↦ rw e (failed (w.calls, e))
    | inr e ↦ rw e h
  ]

module _ {κ} {B : Type κ} (R : B → World → Type 0) (F : World → Type 0) where
  end_of : (e : Exit B) (w : World) → Outcome R F (continue e pure w) → Outcome R F (e, w)
  unfolding pure
  end_of (ok a) w h = h
  end_of stop w h = h
  end_of invalidate w h = h
  end_of panicked w h = h
  end_of hangs w h = h

  -- The last action of a handler.
  pub last-Outcome : (m : M B) (w : World) → Outcome R F ((m >>= pure) w) → Outcome R F (m w)
  unfolding ◌>>=◌
  last-Outcome m w h = end_of (m w).0 (m w).1 h

  pub then-Outcome :
      (b : Bool) (x y : M B) (w : World)
      → b ≡ true
      → Outcome R F (x w)
      → Outcome R F ((if b then x else y) w)
  then-Outcome b x y w e h = rw e h

  pub else-Outcome :
      (b : Bool) (x y : M B) (w : World)
      → b ≡ false
      → Outcome R F (y w)
      → Outcome R F ((if b then x else y) w)
  else-Outcome b x y w e h = rw e h

  pub gets-Outcome {ℓ} :
      {A : Type ℓ} (f : World → A) (k : A → M B) (w : World)
      → Outcome R F (k (f w) w)
      → Outcome R F ((gets f >>= k) w)
  unfolding ◌>>=◌ gets
  gets-Outcome f k w h = h

  pub modify-Outcome :
      (f : World → World) (k : Unit {0} → M B) (w : World)
      → Outcome R F (k tt (f w))
      → Outcome R F ((modify f >>= k) w)
  unfolding ◌>>=◌ modify
  modify-Outcome f k w h = h

  pub weaken-Outcome :
      (Q : B → World → Type 0) (m : M B) (w : World)
      → Outcome Q F (m w)
      → ((a : B) (v : World) → Q a v → R a v)
      → Outcome R F (m w)
  weaken-Outcome Q m w h k = weaken (m w).0 (m w).1 h
    where
      weaken : (e : Exit B) (v : World) → Outcome Q F (e, v) → Outcome R F (e, v)
      weaken (ok a) v h = k a v h
      weaken stop v h = h
      weaken invalidate v h = h
      weaken panicked v h = h
      weaken hangs v h = h

  pub map-Outcome :
      (Q : B → World → Type 0) (G : World → Type 0) (r : Exit B × World)
      → ((a : B) (v : World) → Q a v → R a v)
      → ((v : World) → G v → F v)
      → Outcome Q G r
      → Outcome R F r
  map-Outcome Q G (ok a, v) k l h = k a v h
  map-Outcome Q G (stop, v) k l h = l v h
  map-Outcome Q G (invalidate, v) k l h = h
  map-Outcome Q G (panicked, v) k l h = h
  map-Outcome Q G (hangs, v) k l h = h

  -- What is known of the world in which an action ends, however it ends.
  pub with-Outcome :
      (P : World → Type 0) (m : M B) (w : World)
      → P (m w).1
      → Outcome R F (m w)
      → Outcome (λ a v. R a v × P v) F (m w)
  with-Outcome P m w p h = known (m w).0 (m w).1 p h
    where
      known :
          (e : Exit B) (v : World)
          → P v
          → Outcome R F (e, v)
          → Outcome (λ a v. R a v × P v) F (e, v)
      known (ok a) v p h = (h, p)
      known stop v p h = h
      known invalidate v p h = h
      known panicked v p h = h
      known hangs v p h = h
