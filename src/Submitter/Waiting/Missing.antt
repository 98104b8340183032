-- ===== src/Submitter/Waiting/Missing.antt =====
-- What it means that a sub-saga was never found.
use trax.Prelude.{
  ℕ, zero, suc, ◌+◌, ◌≤◌, ◌<◌, ◌≡◌, refl, subst, Bool, Bool-cases, true, false, Option, none, some,
  List, [], ◌∷◌, inl, inr, arith, leb, ltb, if◌then◌else◌,
}
use trax.State.{
  SagaState, unknown, running, committed, compensated, blocked, invalid_state,
  compensation_requested, paused, cancelled,
}
use trax.Model.{StringMap}
use trax.Submitter.Waiting.{
  Round, context_done, tick, Ending, context_error, timeout, no_outputs, never_found, completed,
  committed_or, ending_of, end_or, poll_from, poll_for_completion,
}

-- In the first rounds, so many of them, the call for the saga failed, in time.
abbrev pub AllFailed : ℕ → ℕ → List Round → Type 0
AllFailed deadline zero rounds = Unit
AllFailed deadline (suc n) [] = ⊥
AllFailed deadline (suc n) (context_done ∷ rounds) = ⊥
AllFailed deadline (suc n) (tick now none o c ∷ rounds) =
    (now ≤ deadline) × AllFailed deadline n rounds
AllFailed deadline (suc n) (tick now (some s) o c ∷ rounds) = ⊥

abbrev is_never_found : Option Ending → Bool
is_never_found none = false
is_never_found (some context_error) = false
is_never_found (some timeout) = false
is_never_found (some no_outputs) = false
is_never_found (some (never_found n)) = true
is_never_found (some (completed s o)) = false

committed-found : (o : Option StringMap) → is_never_found (some (committed_or o)) ≡ false
committed-found none = refl
committed-found (some outputs) = refl

ending_of-found :
    (s : SagaState) (o c : Option StringMap) (later : Option Ending)
    → is_never_found later ≡ false
    → is_never_found (end_or (ending_of true s o c) later) ≡ false
ending_of-found committed o c later h = committed-found o
ending_of-found compensated o c later h = refl
ending_of-found blocked o c later h = refl
ending_of-found invalid_state o c later h = refl
ending_of-found unknown o c later h = h
ending_of-found running o c later h = h
ending_of-found compensation_requested o c later h = h
ending_of-found paused o c later h = h
ending_of-found cancelled o c later h = h

timeout_or :
    (b : Bool) (later : Option Ending)
    → is_never_found later ≡ false
    → is_never_found (if b then some timeout else later) ≡ false
timeout_or true later h = refl
timeout_or false later h = h

seen-found :
    (deadline errors : ℕ) (rounds : List Round)
    → is_never_found (poll_from deadline errors true rounds) ≡ false
unfolding poll_from
seen-found deadline errors [] = refl
seen-found deadline errors (context_done ∷ rounds) = refl
seen-found deadline errors (tick now none o c ∷ rounds) =
    timeout_or (ltb deadline now) _ (seen-found deadline (suc errors) rounds)
seen-found deadline errors (tick now (some s) o c ∷ rounds) =
    timeout_or (ltb deadline now) _ (ending_of-found s o c _ (seen-found deadline 0 rounds))

not_found : (r : Option Ending) (n : ℕ) → is_never_found r ≡ false → r ≡ some (never_found n) → ⊥
not_found r n h e = absurd (ground (arith, subst (λ x. is_never_found x ≡ false) e h))

too_few : (errors : ℕ) → suc errors < 15 → leb 15 (suc errors) ≡ false
too_few errors h = ground arith

never_found-from :
    (left deadline errors : ℕ) (rounds : List Round) (n : ℕ)
    → errors + left ≡ 15
    → 0 < left
    → poll_from deadline errors false rounds ≡ some (never_found n)
    → (n ≡ 15) × AllFailed deadline left rounds
unfolding poll_from
never_found-from zero deadline errors rounds n sum some_left h = absurd (omega (arith, some_left))
never_found-from (suc left) deadline errors [] n sum some_left h = absurd (ground (arith, h))
never_found-from (suc left) deadline errors (context_done ∷ rounds) n sum some_left h =
    absurd (ground (arith, h))
never_found-from (suc zero) deadline errors (tick now none o c ∷ rounds) n sum some_left h =
    elim (Bool-cases (ltb deadline now)) [
      | inl e ↦ absurd (ground (arith, e, h))
      | inr e ↦ ground (arith, e, h, sum)
    ]
never_found-from (suc (suc left)) deadline errors (tick now none o c ∷ rounds) n sum some_left h =
    elim (Bool-cases (ltb deadline now)) [
      | inl e ↦ absurd (ground (arith, e, h))
      | inr e ↦
          let later = poll_from deadline (suc errors) false rounds in
          let (fifteen, failed) =
            never_found-from (suc left) deadline (suc errors) rounds n (omega (arith, sum))
              (omega arith)
              (subst
                (λ b. (if b then some (never_found (suc errors)) else later) ≡ some (never_found n))
                (too_few errors (omega (arith, sum)))
                (subst
                  (λ b.
                    (if b
                      then some timeout
                      else if leb 15 (suc errors)
                      then some (never_found (suc errors))
                      else later)
                    ≡ some (never_found n))
                  e h)) in
          (fifteen, (ground (arith, e), failed))
    ]
never_found-from (suc left) deadline errors (tick now (some s) o c ∷ rounds) n sum some_left h =
    absurd (
      not_found _ n
        (timeout_or (ltb deadline now) _ (ending_of-found s o c _ (seen-found deadline 0 rounds)))
        h)

-- The wait says that the sub-saga was never found only after fifteen rounds, and all of them failed:
-- the first fifteen ticks came in time and in none of them the call for the saga was answered.
pub poll_for_completion-never_found :
    (deadline : ℕ) (rounds : List Round) (n : ℕ)
    → poll_for_completion deadline rounds ≡ some (never_found n)
    → (n ≡ 15) × AllFailed deadline 15 rounds
unfolding poll_for_completion
poll_for_completion-never_found deadline rounds n h =
    never_found-from 15 deadline 0 rounds n refl (omega arith) h
