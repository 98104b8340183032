-- ===== src/Coordinator/Rules/Transaction.antt =====
-- The rule for a transaction of a handler: what its body does is kept whole or undone whole.
use trax.Prelude.{Bool, suc, ◌≡◌, refl, sym, subst, true, inl, inr, Bool-cases, none, some}
use trax.Store.{
  Tables, World, Exit, ok, stop, invalidate, panicked, hangs, M, pure, modify, attempt, ◌>>=◌, ◌>>◌,
}
use trax.Store.Calls.{
  begin_unless_open, begin_transaction, commit_transaction, rollback_transaction,
  finish_transaction,
}
use trax.Store.Outcome.{Outcome, Failed, tick}
use trax.Coordinator.Transit.{
  transaction, transaction_if, checked_transaction_if, mark_saga_invalid,
}

-- The world in which the body runs.
abbrev pub opened : World → World
opened w = record (tick w) { saved = some w.tables }

-- The world after a commit.
abbrev pub committed_world : World → World
committed_world v = record v { saved = none; calls = suc v.calls }

-- The body ends well with `R` or stops with `S`, and then the transaction is still open. After the
-- commit there is `Q`, or `F` if its answer is an error; after a rollback there is `F`.
module _ {ℓ} {A : Type ℓ} (keeps : A → Bool) (t : Tables) (Q R : A → World → Type 0)
    (S F : World → Type 0) (is_kept : (a : A) (v : World) → R a v → keeps a ≡ true)
    (is_open : (a : A) (v : World) → R a v → v.saved ≡ some t)
    (kept : (a : A) (v : World) → R a v → Q a (committed_world v))
    (lost : (a : A) (v : World) → R a v → Failed v → F (committed_world v))
    (unkept : (a : A) (v : World)
      → R a v
      → Failed v
      → F (record (committed_world v) { tables = t }))
    (still_open : (v : World) → S v → v.saved ≡ some t)
    (undone : (v : World) → S v → F (record v { saved = none; tables = t })) where
  finish-Outcome :
      (mark : M (Unit {0})) (e : Exit A) (v : World)
      → Outcome R S (e, v)
      → Outcome Q F (finish_transaction keeps mark (e, v))
  unfolding finish_transaction commit_transaction rollback_transaction ◌>>=◌ pure
  finish-Outcome mark (ok a) v h = rw (is_kept a v h) (
      rw (is_open a v h) (elim (Bool-cases (v.env.fails v.calls)) [
        | inl e ↦ rw e (elim (Bool-cases (v.env.lands v.calls)) [
          | inl l ↦ rw l (lost a v h (v.calls, e))
          | inr l ↦ rw l (unkept a v h (v.calls, e))
        ])
        | inr e ↦ rw e (kept a v h)
      ]))
  finish-Outcome mark stop v h = rw (still_open v h) (undone v h)
  finish-Outcome mark invalidate v h = absurd h
  finish-Outcome mark panicked v h = absurd h
  finish-Outcome mark hangs v h = absurd h

  begun :
      (body : M A) (w : World)
      → (Failed w → F (tick w))
      → w.tables ≡ t
      → Outcome R S (body (opened w))
      → Outcome Q F
          ((begin_unless_open none >> λ v. finish_transaction keeps mark_saga_invalid (body v)) w)
  unfolding begin_unless_open ◌>>=◌ modify attempt
  begun body w failed same h = elim (Bool-cases (w.env.fails w.calls)) [
    | inl e ↦ rw e (failed (w.calls, e))
    | inr e ↦ rw e (finish-Outcome mark_saga_invalid (body (opened w)).0 (body (opened w)).1 h)
  ]

  checked :
      (body : M A) (w : World)
      → (Failed w → F (tick w))
      → (Failed w → F (tick (opened w)))
      → w.tables ≡ t
      → Outcome R S (body (tick (opened w)))
      → Outcome Q F (
          (begin_unless_open none
              >> (attempt >> λ v. finish_transaction keeps mark_saga_invalid (body v)))
            w)
  unfolding begin_unless_open ◌>>=◌ modify attempt
  checked body w failed left same h = elim (Bool-cases (w.env.fails w.calls)) [
    | inl e ↦ rw e (failed (w.calls, e))
    | inr e ↦ rw e (elim (Bool-cases (w.env.fails (suc w.calls))) [
      | inl e' ↦ rw e' (left (suc w.calls, e'))
      | inr e' ↦
          rw e' (
            finish-Outcome mark_saga_invalid (body (tick (opened w))).0 (body (tick (opened w))).1
              h)
    ])
  ]

  -- The same where the deadline is tested first; `F` also holds where that test fails.
  pub checked_transaction_of-Outcome :
      (body : M A) (w : World)
      → w.saved ≡ none
      → (Failed w → F (tick w))
      → (Failed w → F (tick (opened w)))
      → w.tables ≡ t
      → Outcome R S (body (tick (opened w)))
      → Outcome Q F (checked_transaction_if keeps body w)
  unfolding checked_transaction_if begin_transaction ◌>>=◌
  checked_transaction_of-Outcome body w closed failed left same h =
      subst
        (λ o. Outcome Q F (
          (begin_unless_open o
              >> (attempt >> λ v. finish_transaction keeps mark_saga_invalid (body v)))
            w))
        (sym closed) (checked body w failed left same h)

  pub transaction_of-Outcome :
      (body : M A) (w : World)
      → w.saved ≡ none
      → (Failed w → F (tick w))
      → w.tables ≡ t
      → Outcome R S (body (opened w))
      → Outcome Q F (transaction_if keeps body w)
  unfolding transaction_if begin_transaction ◌>>=◌
  transaction_of-Outcome body w closed failed same h =
      subst
        (λ o.
          Outcome Q F
            ((begin_unless_open o >> λ v. finish_transaction keeps mark_saga_invalid (body v)) w))
        (sym closed) (begun body w failed same h)

module _ {ℓ} {A : Type ℓ} (keeps : A → Bool) (t : Tables) (Q R : A → World → Type 0)
    (F : World → Type 0) (is_kept : (a : A) (v : World) → R a v → keeps a ≡ true)
    (is_open : (a : A) (v : World) → R a v → v.saved ≡ some t)
    (kept : (a : A) (v : World) → R a v → Q a (committed_world v))
    (lost : (a : A) (v : World) → R a v → Failed v → F (committed_world v))
    (undone : (v : World) → Failed v → F (record v { saved = none; tables = t })) where
  pub transaction_if-Outcome :
      (body : M A) (w : World)
      → w.saved ≡ none
      → (Failed w → F (tick w))
      → w.tables ≡ t
      → Outcome R (λ u. (u.saved ≡ some t) × Failed u) (body (opened w))
      → Outcome Q F (transaction_if keeps body w)
  transaction_if-Outcome =
      transaction_of-Outcome keeps t Q R (λ u. (u.saved ≡ some t) × Failed u) F is_kept is_open kept
        lost (λ a v h e. undone (committed_world v) e) (λ v h. h.0) (λ v h. undone v h.1)

module _ {ℓ} {A : Type ℓ} (t : Tables) (Q R : A → World → Type 0) (F : World → Type 0)
    (is_open : (a : A) (v : World) → R a v → v.saved ≡ some t)
    (kept : (a : A) (v : World) → R a v → Q a (committed_world v))
    (lost : (a : A) (v : World) → R a v → Failed v → F (committed_world v))
    (undone : (v : World) → Failed v → F (record v { saved = none; tables = t })) where
  pub transaction-Outcome :
      (body : M A) (w : World)
      → w.saved ≡ none
      → (Failed w → F (tick w))
      → w.tables ≡ t
      → Outcome R (λ u. (u.saved ≡ some t) × Failed u) (body (opened w))
      → Outcome Q F (transaction body w)
  unfolding transaction
  transaction-Outcome =
      transaction_if-Outcome (λ a. true) t Q R F (λ a v h. refl) is_open kept lost undone
