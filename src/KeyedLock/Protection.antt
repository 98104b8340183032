-- ===== src/KeyedLock/Protection.antt =====
-- A live lock is out of reach of all other holders.
use trax.Prelude.{
  ℤ, ℕ, ◌<◌, ◌≡◌, refl, subst, ◌∙◌, String, Bool, Bool-cases, true, false, Option, none, some, List,
  [], ◌∷◌, ◌==◌, inl, inr, All, arith, eq_iff, find?, keep,
}
use trax.KeyedLock.Acquiring.{Attempt, Free, insert_or_steal-Attempt}
use trax.KeyedLock.{
  LockRow, LockCall, acquires, releases, refreshes, reaps, new_row, acquire, release, refresh,
  reap_expired, lock_row, rows_or, on_call, on_calls,
}

-- The call is made before the lock expires, and not by its holder as a release or a refresh.
abbrev pub Foreign : LockRow → LockCall × ℕ → Type 0
Foreign r (acquires key holder ttl, now) = now < r.expires_at
Foreign r (releases holder, now) = (r.holder_id == holder) ≡ false
Foreign r (refreshes holder ttl, now) = (r.holder_id == holder) ≡ false
Foreign r (reaps, now) = now < r.expires_at

find-keep :
    (p q : LockRow → Bool) (rows : List LockRow) (r : LockRow)
    → find? p rows ≡ some r
    → q r ≡ true
    → find? p (keep q rows) ≡ some r
find-keep p q [] r f k = ground (arith, f)
find-keep p q (s ∷ rows) r f k = ground (arith, f, k, find-keep p q rows r)

refresh-other :
    (key : String) (holder : String) (ttl : ℤ) (now : ℕ) (rows : List LockRow) (r : LockRow)
    → lock_row key rows ≡ some r
    → (r.holder_id == holder) ≡ false
    → lock_row key (refresh holder ttl now rows) ≡ some r
unfolding lock_row refresh
refresh-other key holder ttl now [] r f k = ground (arith, f)
refresh-other key holder ttl now (s ∷ rows) r f k =
    ground (arith, f, k, refresh-other key holder ttl now rows r)

-- An attempt leaves a live lock.
stays_held :
    (new : LockRow) (key : String) (now : ℕ) (rows : List LockRow) (r : LockRow)
    (o : Option (List LockRow))
    → lock_row key rows ≡ some r
    → now < r.expires_at
    → Attempt new now rows o
    → lock_row key (rows_or rows o) ≡ some r
stays_held new key now rows r none f live h = f
stays_held new key now rows r (some after) f live h = elim (Bool-cases (new.lock_key == key)) [
  | inl e ↦ absurd (taken r live f (subst (λ k. Free now (lock_row k rows)) ((eq_iff _ _).0 e) h.0))
  | inr e ↦ h.1 key ∙ rw e f
]
  where
    taken :
        (r : LockRow)
        → now < r.expires_at
        → lock_row key rows ≡ some r
        → Free now (lock_row key rows)
        → ⊥
    taken r live f h = absurd (omega (arith, live, subst (Free now) f h))

on_call-Foreign :
    (key : String) (call : LockCall) (now : ℕ) (rows : List LockRow) (r : LockRow)
    → lock_row key rows ≡ some r
    → Foreign r (call, now)
    → lock_row key (on_call call now rows) ≡ some r
unfolding on_call acquire release reap_expired lock_row
on_call-Foreign key (acquires k holder ttl) now rows r f h =
    stays_held (new_row k holder ttl now) key now rows r _ f h
      (insert_or_steal-Attempt (new_row k holder ttl now) now rows)
on_call-Foreign key (releases holder) now rows r f h = find-keep _ _ rows r f (rw h refl)
on_call-Foreign key (refreshes holder ttl) now rows r f h =
    refresh-other key holder ttl now rows r f h
on_call-Foreign key reaps now rows r f h = find-keep _ _ rows r f (ground arith)

-- The key has a row. It stands unchanged after any calls of the store, in any order, that are made
-- before the lock expires and do not release or refresh the locks of its holder. In particular no
-- other holder acquires the lock in this time.
pub on_calls-Foreign :
    (key : String) (calls : List (LockCall × ℕ)) (rows : List LockRow) (r : LockRow)
    → lock_row key rows ≡ some r
    → All (Foreign r) calls
    → lock_row key (on_calls calls rows) ≡ some r
unfolding on_calls
on_calls-Foreign key [] rows r f h = f
on_calls-Foreign key ((call, now) ∷ calls) rows r f h =
    on_calls-Foreign key calls (on_call call now rows) r (on_call-Foreign key call now rows r f h.0)
      h.1
