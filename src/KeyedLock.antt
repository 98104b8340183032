-- ===== src/KeyedLock.antt =====
-- The keyed lock of pkg/cache/pgsql_keyed_lock.go: its statements on the rows of
-- `shared.distributed_locks`, whose primary key is `lock_key`. `now` is NOW() of the database, in
-- milliseconds. A call that fails with an error of the database changes nothing.
pub mod Acquiring
pub mod Protection
use trax.Prelude.{
  ℤ, pos, negsuc, ℕ, zero, suc, ◌+◌, ◌/◌, String, Bool, not, Option, none, some, List, [], ◌∷◌, map,
  ◌==◌, ◌&&◌, any, find?, keep, length, leb, ltb, if◌then◌else◌,
}

pub record LockRow : Type 0 where
  pub lock_key : String
  pub holder_id : String
  pub acquired_at : ℕ
  pub expires_at : ℕ

-- DefaultKeyedLockTTL, in milliseconds
abbrev pub default_keyed_lock_ttl : ℕ
default_keyed_lock_ttl = 300000

-- The time to live in milliseconds, rounded down, of a time.Duration in nanoseconds.
unfoldable pub ttl_ms : ℤ → ℕ
ttl_ms (pos zero) = default_keyed_lock_ttl
ttl_ms (pos (suc n)) = suc n / 1000000
ttl_ms (negsuc n) = default_keyed_lock_ttl

abbrev pub is_live : ℕ → LockRow → Bool
is_live now r = ltb now r.expires_at

unfoldable pub new_row : String → String → ℤ → ℕ → LockRow
unfolding ttl_ms
new_row key holder ttl now = record {
  lock_key = key;
  holder_id = holder;
  acquired_at = now;
  expires_at = now + ttl_ms ttl;
}

abbrev pub cons_row : LockRow → Option (List LockRow) → Option (List LockRow)
cons_row r none = none
cons_row r (some rows) = some (r ∷ rows)

-- `INSERT … ON CONFLICT (lock_key) DO UPDATE … WHERE expires_at <= NOW()`; `none` where it affects
-- no row.
unfoldable pub insert_or_steal : LockRow → ℕ → List LockRow → Option (List LockRow)
insert_or_steal new now [] = some (new ∷ [])
insert_or_steal new now (r ∷ rows) =
    if r.lock_key == new.lock_key
    then if leb r.expires_at now then some (new ∷ rows) else none
    else cons_row r (insert_or_steal new now rows)

-- `none` is ErrKeyedLockHeld.
unfoldable pub acquire : String → String → ℤ → ℕ → List LockRow → Option (List LockRow)
unfolding insert_or_steal new_row
acquire key holder ttl now rows = insert_or_steal (new_row key holder ttl now) now rows

unfoldable pub release : String → List LockRow → List LockRow
release holder rows = keep (λ r. not (r.holder_id == holder)) rows

unfoldable pub refresh : String → ℤ → ℕ → List LockRow → List LockRow
unfolding ttl_ms
refresh holder ttl now rows =
    map (λ r. if r.holder_id == holder then record r { expires_at = now + ttl_ms ttl } else r) rows

unfoldable pub is_held_by : String → ℕ → List LockRow → Bool
is_held_by holder now rows = any (λ r. r.holder_id == holder && is_live now r) rows

unfoldable pub reap_expired : ℕ → List LockRow → List LockRow
reap_expired now rows = keep (is_live now) rows

-- The row of a key.
unfoldable pub lock_row : String → List LockRow → Option LockRow
lock_row key rows = find? (λ r. r.lock_key == key) rows

-- The calls of the store that change rows.
pub data LockCall : Type 0 where
  acquires : String → String → ℤ → LockCall
  releases : String → LockCall
  refreshes : String → ℤ → LockCall
  reaps : LockCall

abbrev pub rows_or : List LockRow → Option (List LockRow) → List LockRow
rows_or rows none = rows
rows_or rows (some new) = new

unfoldable pub on_call : LockCall → ℕ → List LockRow → List LockRow
unfolding acquire release refresh reap_expired
on_call (acquires key holder ttl) now rows = rows_or rows (acquire key holder ttl now rows)
on_call (releases holder) now rows = release holder rows
on_call (refreshes holder ttl) now rows = refresh holder ttl now rows
on_call reaps now rows = reap_expired now rows

-- Calls, each with its time.
unfoldable pub on_calls : List (LockCall × ℕ) → List LockRow → List LockRow
unfolding on_call
on_calls [] rows = rows
on_calls ((call, now) ∷ calls) rows = on_calls calls (on_call call now rows)
