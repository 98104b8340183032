-- ===== src/Scenario/Locks.antt =====
-- Locks of three holders.
use trax.Prelude.{All, pos, ℕ, String, none, some, List, [], ◌∷◌, ◌≡◌, refl, arith}
use trax.KeyedLock.{
  LockRow, LockCall, acquires, releases, refreshes, reaps, acquire, lock_row, on_calls, new_row,
}
use trax.KeyedLock.Acquiring.{Attempt, acquire-Attempt}
use trax.KeyedLock.Protection.{Foreign, on_calls-Foreign}

abbrev row : LockRow
row = record { lock_key = "k"; holder_id = "h"; acquired_at = 10; expires_at = 100 }

abbrev rows : List LockRow
rows = row ∷ []

abbrev row_of : String → ℕ → ℕ → LockRow
row_of holder from to = record {
  lock_key = "k";
  holder_id = holder;
  acquired_at = from;
  expires_at = to;
}

-- The lock of "h" has expired, and "i" takes it for 5 milliseconds.
acquire-Attempt_example :
    Attempt (new_row "k" "i" (pos 5000000) 100) 100 rows (some (row_of "i" 100 105 ∷ []))
unfolding acquire
acquire-Attempt_example = acquire-Attempt "k" "i" (pos 5000000) 100 rows

held : acquire "k" "i" (pos 5000000) 99 rows ≡ none
unfolding acquire
held = refl

abbrev calls : List (LockCall × ℕ)
calls =
    (acquires "k" "i" (pos 5000000), 20)
    ∷ (acquires "l" "i" (pos 5000000), 30)
    ∷ (refreshes "i" (pos 9000000), 31)
    ∷ (reaps, 50)
    ∷ (releases "i", 99)
    ∷ []

found : lock_row "k" rows ≡ some row
unfolding lock_row
found = refl

by_others : All (Foreign row) calls
by_others = (omega arith, (omega arith, (refl, (omega arith, (refl, tt)))))

on_calls-Foreign_example : lock_row "k" (on_calls calls rows) ≡ some row
on_calls-Foreign_example = on_calls-Foreign "k" calls rows row found by_others
