-- ===== src/Submitter/Backoff.antt =====
-- The waits of the fast retries.
use trax.Prelude.{ℕ, zero, suc, ◌+◌, ◌*◌, ◌≤◌, List, [], ◌∷◌, All, arith, length}
use trax.Submitter.{SagaSubmitter, Answer, accepted, refused, fast_retry, min}

abbrev pub total : List ℕ → ℕ
total [] = 0
total (w ∷ waits) = w + total waits

-- The longest waits of so many retries: each twice as long as the one before it.
abbrev pub doubled : ℕ → ℕ → ℕ
doubled zero backoff = 0
doubled (suc left) backoff = backoff + doubled left (2 * backoff)

doubled_mono : (left a b : ℕ) → a ≤ b → doubled left a ≤ doubled left b
doubled_mono zero a b h = omega arith
doubled_mono (suc left) a b h = omega (arith, doubled_mono left (2 * a) (2 * b) (omega arith))

min-le : (a b : ℕ) → (min a b ≤ a) × (min a b ≤ b)
unfolding min
min-le a b = ground arith

waits-bounds :
    (left interval backoff : ℕ) (answers : List Answer) (s : SagaSubmitter)
    → backoff ≤ interval
    → All (λ w. w ≤ interval) (fast_retry left interval backoff answers s).0
      × (length (fast_retry left interval backoff answers s).0 ≤ left)
      × (total (fast_retry left interval backoff answers s).0 ≤ doubled left backoff)
unfolding fast_retry
waits-bounds zero interval backoff answers s h = (tt, omega arith, omega arith)
waits-bounds (suc left) interval backoff [] s h = (tt, omega arith, omega arith)
waits-bounds (suc left) interval backoff (accepted r ∷ answers) s h =
    ((h, tt), omega arith, omega arith)
waits-bounds (suc left) interval backoff (refused ∷ answers) s h =
    let (short, capped) = min-le (2 * backoff) interval in
    let (a, b, c) = waits-bounds left interval (min (2 * backoff) interval) answers s capped in
    (
      (h, a),
      omega (arith, b),
      omega (arith, c, doubled_mono left (min (2 * backoff) interval) (2 * backoff) short),
    )

-- Where the interval of announcements is at least a second, there are at most five retries after a
-- failed announcement, none of their waits is longer than the interval, and together they take at
-- most 31 seconds.
pub fast_retry-bounds :
    (interval : ℕ) (answers : List Answer) (s : SagaSubmitter)
    → 1000 ≤ interval
    → All (λ w. w ≤ interval) (fast_retry 5 interval 1000 answers s).0
      × (length (fast_retry 5 interval 1000 answers s).0 ≤ 5)
      × (total (fast_retry 5 interval 1000 answers s).0 ≤ 31000)
fast_retry-bounds interval answers s h = waits-bounds 5 interval 1000 answers s h
