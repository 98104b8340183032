-- ===== src/KeyedLock/Acquiring.antt =====
-- When a lock is acquired, and what that changes.
use trax.Prelude.{
  ℤ, pos, ℕ, zero, suc, ◌≢◌, subst, ◌∙◌, eq_refl, ◌≤◌, ◌<◌, ◌≡◌, refl, String, Bool-cases, true,
  false, Option, none, some, List, [], ◌∷◌, ◌==◌, inl, inr, arith, eq_iff, leb, if◌then◌else◌,
}
use trax.KeyedLock.{LockRow, new_row, cons_row, insert_or_steal, acquire, lock_row, ttl_ms}

-- A row is free to be taken: there is none, or it has expired.
abbrev pub Free : ℕ → Option LockRow → Type 0
Free now none = Unit
Free now (some r) = r.expires_at ≤ now

abbrev pub Held : ℕ → Option LockRow → Type 0
Held now none = ⊥
Held now (some r) = now < r.expires_at

-- What an attempt to take a lock with a new row gives.
abbrev pub Attempt : LockRow → ℕ → List LockRow → Option (List LockRow) → Type 0
Attempt new now rows none = Held now (lock_row new.lock_key rows)
Attempt new now rows (some after) =
    Free now (lock_row new.lock_key rows)
    × ((key : String)
        → (lock_row key after ≡ (if new.lock_key == key then some new else lock_row key rows)))

past_other :
    (new r : LockRow) (now : ℕ) (rows : List LockRow) (o : Option (List LockRow))
    → (r.lock_key == new.lock_key) ≡ false
    → Attempt new now rows o
    → Attempt new now (r ∷ rows) (cons_row r o)
unfolding lock_row
past_other new r now rows none e h = rw e h
past_other new r now rows (some after) e h = (
  rw e h.0,
  λ key. ground (
    arith,
    h.1 key,
    eq_iff r.lock_key key,
    eq_iff new.lock_key key,
    eq_iff r.lock_key new.lock_key,
  ),
)

at_same :
    (new r : LockRow) (now : ℕ) (rows : List LockRow)
    → (r.lock_key == new.lock_key) ≡ true
    → Attempt new now (r ∷ rows) (if leb r.expires_at now then some (new ∷ rows) else none)
unfolding lock_row
at_same new r now rows e = elim (Bool-cases (leb r.expires_at now)) [
  | inl expired ↦ rw expired (
    rw e (ground arith),
    λ key.
        ground
          (arith, eq_iff r.lock_key key, eq_iff new.lock_key key, eq_iff r.lock_key new.lock_key),
  )
  | inr live ↦ rw live (rw e (ground arith))
]

pub insert_or_steal-Attempt :
    (new : LockRow) (now : ℕ) (rows : List LockRow)
    → Attempt new now rows (insert_or_steal new now rows)
unfolding insert_or_steal lock_row
insert_or_steal-Attempt new now [] = (tt, λ key. refl)
insert_or_steal-Attempt new now (r ∷ rows) = elim (Bool-cases (r.lock_key == new.lock_key)) [
  | inl e ↦ rw e (at_same new r now rows e)
  | inr e ↦ rw e (past_other new r now rows _ e (insert_or_steal-Attempt new now rows))
]

-- Acquire fails with ErrKeyedLockHeld exactly where the key has a row that is live. Otherwise the
-- row of the key becomes that of the new holder, and the rows of all other keys stay.
pub acquire-Attempt :
    (key holder : String) (ttl : ℤ) (now : ℕ) (rows : List LockRow)
    → Attempt (new_row key holder ttl now) now rows (acquire key holder ttl now rows)
unfolding acquire
acquire-Attempt key holder ttl now rows =
    insert_or_steal-Attempt (new_row key holder ttl now) now rows

rounded_down : (n : ℕ) → 0 < n → n < 1000000 → ttl_ms (pos n) ≡ 0
unfolding ttl_ms
rounded_down zero h k = absurd (omega (arith, h))
rounded_down (suc n) h k = omega arith

-- A lock that is acquired for less than a millisecond, but for more than no time, protects
-- nothing: an attempt of any holder at the same or a later time acquires it.
pub acquire-short :
    (key holder other : String) (n : ℕ) (ttl : ℤ) (now later : ℕ) (rows after : List LockRow)
    → 0 < n
    → n < 1000000
    → now ≤ later
    → acquire key holder (pos n) now rows ≡ some after
    → acquire key other ttl later after ≢ none
unfolding new_row
acquire-short key holder other n ttl now later rows after positive short order done refused =
    absurd (
      omega (
        arith,
        order,
        rounded_down n positive short,
        subst (Held later) (row ∙ at_key) (
            subst (Attempt (new_row key other ttl later) later after) refused
              (acquire-Attempt key other ttl later after)),
      ))
  where
    new : LockRow
    new = new_row key holder (pos n) now

    row : lock_row key after ≡ (if key == key then some new else lock_row key rows)
    row = (subst (Attempt new now rows) done (acquire-Attempt key holder (pos n) now rows)).1 key

    at_key : (if key == key then some new else lock_row key rows) ≡ some new
    at_key = rw (eq_refl key) refl
