-- ===== src/Store/Quiet.antt =====
-- Actions that send no message: the environment and the parents of the sagas stay, and the calls
-- are counted up.
pub mod Calls
pub mod Transaction
use trax.Prelude.{
  ℕ, ◌≤◌, suc, String, ◌≡◌, refl, sym, ap, subst, ◌∙◌, List, map, Bool, true, false, Option, none,
  some, arith, if◌then◌else◌,
}
use trax.Store.{
  World, Tables, Exit, ok, stop, invalidate, panicked, hangs, M, pure, exit, gets, modify, ignore,
  try, attempt, time_now, secure_random_string, continue, found, ◌>>=◌, ◌>>◌,
}

-- The parents of the sagas, in the order of the rows.
abbrev pub lineage : Tables → List String
lineage t = map (λ s. s.parent_saga_instance_id) t.sagas

-- The sagas of the open transaction had these parents at its begin.
abbrev pub AnchoredTo : Option Tables → List String → Type 0
AnchoredTo none l = Unit
AnchoredTo (some t) l = lineage t ≡ l

abbrev pub Anchored : World → Type 0
Anchored w = AnchoredTo w.saved (lineage w.tables)

-- What an action may change of the rest of the world.
pub record After (w v : World) : Type 0 where
  pub same_env : v.env ≡ w.env
  pub no_earlier : w.calls ≤ v.calls
  pub same_published : v.published ≡ w.published
  pub same_lineage : Anchored w → (lineage v.tables ≡ lineage w.tables) × Anchored v

pub closed-Anchored : (w : World) → w.saved ≡ none → Anchored w
closed-Anchored w closed = subst (λ o. AnchoredTo o (lineage w.tables)) (sym closed) tt

-- Without an open transaction the parents stay.
pub After-lineage : (w v : World) → After w v → w.saved ≡ none → lineage v.tables ≡ lineage w.tables
After-lineage w v a closed = (a.same_lineage (closed-Anchored w closed)).0

pub After-refl : (w : World) → After w w
After-refl w = record {
  same_env = refl;
  no_earlier = omega arith;
  same_published = refl;
  same_lineage = λ a. (refl, a);
}

pub After-trans : (w v u : World) → After w v → After v u → After w u
After-trans w v u a b = record {
  same_env = b.same_env ∙ a.same_env;
  no_earlier = omega (arith, a.no_earlier, b.no_earlier);
  same_published = b.same_published ∙ a.same_published;
  same_lineage = λ x.
      let first = a.same_lineage x in
      let second = b.same_lineage first.1 in (second.0 ∙ first.0, second.1);
}

-- The rows and the open transaction stay.
pub After-rows :
    (w v : World)
    → v.env ≡ w.env
    → w.calls ≤ v.calls
    → v.published ≡ w.published
    → v.tables ≡ w.tables
    → v.saved ≡ w.saved
    → After w v
After-rows w v env calls published tables saved = record {
  same_env = env;
  no_earlier = calls;
  same_published = published;
  same_lineage = λ a. (
    ap lineage tables,
    subst (λ t. AnchoredTo v.saved (lineage t)) (sym tables)
        (subst (λ o. AnchoredTo o (lineage w.tables)) (sym saved) a),
  );
}

-- `m` leads from each world to one after it, however it ends.
pub record Quiet {ℓ} {A : Type ℓ} (m : M A) : Type ℓ where
  pub at : (w : World) → After w (m w).1

module _ {ℓ} {A : Type ℓ} where
  pub Quiet-pure : (a : A) → Quiet (pure a)
  unfolding pure
  Quiet-pure a = record { at = After-refl }

  pub Quiet-exit : (e : Exit A) → Quiet (exit e)
  unfolding exit
  Quiet-exit e = record { at = After-refl }

  pub Quiet-gets : (f : World → A) → Quiet (gets f)
  unfolding gets
  Quiet-gets f = record { at = After-refl }

  pub Quiet-if : (b : Bool) (m n : M A) → Quiet m → Quiet n → Quiet (if b then m else n)
  Quiet-if true m n hm hn = hm
  Quiet-if false m n hm hn = hn

  pub Quiet-found : (o : Option A) → Quiet (found o)
  Quiet-found none = Quiet-exit stop
  Quiet-found (some a) = Quiet-pure a

-- A change of what the action holds or of the rows.
pub Quiet-modify :
    (f : World → World)
    → ((w : World) → (f w).env ≡ w.env)
    → ((w : World) → (f w).calls ≡ w.calls)
    → ((w : World) → (f w).published ≡ w.published)
    → ((w : World) → (f w).tables ≡ w.tables)
    → ((w : World) → (f w).saved ≡ w.saved)
    → Quiet (modify f)
unfolding modify
Quiet-modify f env calls published tables saved = record {
  at = λ w. After-rows w (f w) (env w) (omega (arith, calls w)) (published w) (tables w) (saved w);
}

pub Quiet-attempt : Quiet attempt
unfolding attempt
Quiet-attempt = record { at = λ w. After-rows w _ refl (omega arith) refl refl refl }

pub Quiet-time_now : Quiet time_now
unfolding time_now
Quiet-time_now = record { at = λ w. After-rows w _ refl (omega arith) refl refl refl }

pub Quiet-secure_random_string : Quiet secure_random_string
unfolding secure_random_string
Quiet-secure_random_string = record { at = λ w. After-rows w _ refl (omega arith) refl refl refl }

pub Quiet-ignore : (m : M (Unit {0})) → Quiet m → Quiet (ignore m)
unfolding ignore
Quiet-ignore m h = record { at = h.at }

module _ {ℓ} {A : Type ℓ} where
  pub Quiet-try : (m : M A) → Quiet m → Quiet (try m)
  unfolding try
  Quiet-try m h = record { at = h.at }

module _ {ℓ κ} {A : Type ℓ} {B : Type κ} where
  Quiet-continue :
      (e : Exit A) (f : A → M B) (w v : World)
      → After w v
      → ((a : A) → Quiet (f a))
      → After w (continue e f v).1
  Quiet-continue (ok a) f w v h hf = After-trans w v _ h ((hf a).at v)
  Quiet-continue stop f w v h hf = h
  Quiet-continue invalidate f w v h hf = h
  Quiet-continue panicked f w v h hf = h
  Quiet-continue hangs f w v h hf = h

  pub Quiet-bind : (m : M A) (f : A → M B) → Quiet m → ((a : A) → Quiet (f a)) → Quiet (m >>= f)
  unfolding ◌>>=◌
  Quiet-bind m f hm hf = record { at = λ w. Quiet-continue (m w).0 f w (m w).1 (hm.at w) hf }

  pub Quiet-option :
      (m : M B) (f : A → M B) (o : Option A)
      → Quiet m
      → ((a : A) → Quiet (f a))
      → Quiet (elim o [ none ↦ m | some a ↦ f a ])
  Quiet-option m f none hm hf = hm
  Quiet-option m f (some a) hm hf = hf a

pub ruleset quiet_rules = (
  Quiet-pure, Quiet-exit, Quiet-gets, Quiet-if, Quiet-found, Quiet-attempt, Quiet-time_now,
  Quiet-secure_random_string, Quiet-ignore, Quiet-try, Quiet-bind, Quiet-modify,
)
