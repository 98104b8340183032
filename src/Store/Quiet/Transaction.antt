-- ===== src/Store/Quiet/Transaction.antt =====
-- Begin, commit and rollback send no message.
use trax.Prelude.{
  ◌≡◌, ◌≤◌, refl, sym, ap, subst, ◌∙◌, arith, if◌then◌else◌, true, false, Bool, Option, none, some,
}
use trax.Store.{Tables, World, Exit, modify}
use trax.Store.Calls.{
  begin_unless_open, begin_transaction, commit_open, commit_transaction, rollback_transaction,
}
use trax.Store.Quiet.{lineage, AnchoredTo, After, After-refl, Quiet, Quiet-bind, Quiet-attempt}
use trax.Store.Quiet.Calls.{call_rules}

begin_unless_open-Quiet : (o : Option Tables) → Quiet (begin_unless_open o)
unfolding begin_unless_open modify
begin_unless_open-Quiet none = Quiet-bind _ _ Quiet-attempt (λ _. opening)
  where
    opening : Quiet (modify (λ w. record w { saved = some w.tables }))
    opening = record {
      at = λ w. record {
        same_env = refl;
        no_earlier = omega arith;
        same_published = refl;
        same_lineage = λ a. (refl, refl);
      };
    }
begin_unless_open-Quiet (some t) = search call_rules

pub begin_transaction-Quiet : Quiet begin_transaction
unfolding begin_transaction
begin_transaction-Quiet = record { at = λ w. (begin_unless_open-Quiet w.saved).at w }

-- The rows of the begin of the transaction are back, and it is closed.
restored :
    (w v u : World) (t : Tables)
    → After w v
    → v.saved ≡ some t
    → u.env ≡ v.env
    → v.calls ≤ u.calls
    → u.published ≡ v.published
    → u.tables ≡ t
    → u.saved ≡ none
    → After w u
restored w v u t h open_of env calls published tables closed = record {
  same_env = env ∙ h.same_env;
  no_earlier = omega (arith, h.no_earlier, calls);
  same_published = published ∙ h.same_published;
  same_lineage = λ a.
      let (same, anchor) = h.same_lineage a in
      (
        ap lineage tables ∙ subst (λ o. AnchoredTo o (lineage v.tables)) open_of anchor ∙ same,
        subst (λ o. AnchoredTo o (lineage u.tables)) (sym closed) tt,
      );
}

-- The transaction is closed with its rows.
closed_with_rows :
    (w u : World)
    → u.env ≡ w.env
    → w.calls ≤ u.calls
    → u.published ≡ w.published
    → u.tables ≡ w.tables
    → u.saved ≡ none
    → After w u
closed_with_rows w u env calls published tables closed = record {
  same_env = env;
  no_earlier = calls;
  same_published = published;
  same_lineage =
      λ a. (ap lineage tables, subst (λ o. AnchoredTo o (lineage u.tables)) (sym closed) tt);
}

rollback_of :
    (o : Option Tables) (w v : World)
    → v.saved ≡ o
    → After w v
    → After w (elim o [ none ↦ v | some t ↦ record v { saved = none; tables = t } ])
rollback_of none w v e h = h
rollback_of (some t) w v e h = restored w v _ t h e refl (omega arith) refl refl refl

pub rollback-After : (w v : World) → After w v → After w (rollback_transaction v)
unfolding rollback_transaction
rollback-After w v h = rollback_of v.saved w v refl h

After-if :
    (w : World) (b : Bool) (u v : World) → After w u → After w v → After w (if b then u else v)
After-if w true u v hu hv = hu
After-if w false u v hu hv = hv

After-either :
    (w : World) (b : Bool) (r r' : Exit (Unit {0}) × World)
    → After w r.1
    → After w r'.1
    → After w (if b then r else r').1
After-either w true r r' h h' = h
After-either w false r r' h h' = h'

commit_of : (o : Option Tables) (w : World) → w.saved ≡ o → After w (commit_open o w).1
commit_of none w e = After-refl w
commit_of (some t) w e =
    After-either w (w.env.fails w.calls) _ _
      (After-if w (w.env.lands w.calls) _ _ (closed_with_rows w _ refl (omega arith) refl refl refl)
        (restored w w _ t (After-refl w) e refl (omega arith) refl refl refl))
      (closed_with_rows w _ refl (omega arith) refl refl refl)

pub commit_transaction-Quiet : Quiet commit_transaction
unfolding commit_transaction
commit_transaction-Quiet = record { at = λ w. commit_of w.saved w refl }
