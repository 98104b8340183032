-- ===== src/Submitter/Waiting/Endings.antt =====
-- What the ways in which a wait ends say of the rounds.
use trax.Prelude.{
  ℕ, ◌≤◌, ◌≡◌, refl, ap, subst, ◌∙◌, Bool-cases, false, Option, Option-cases, none, some, List, [],
  ◌∷◌, ◌++◌, All, inl, inr, arith, ltb, if◌then◌else◌,
}
use trax.State.{SagaState}
use trax.Model.{StringMap}
use trax.Submitter.Waiting.{
  Round, context_done, tick, Ending, completed, ending_of, end_or, wait_for_saga_completion, GoesOn,
}

-- In some round the saga was seen in a state with this ending, in time, and in no round before it
-- was there a reason to end.
pub record SeenFirst (deadline : ℕ) (e : Ending) (rounds : List Round) : Type 0 where
  pub before : List Round
  pub after : List Round
  pub now : ℕ
  pub state : SagaState
  pub outputs : Option StringMap
  pub compensations : Option StringMap
  pub split : rounds ≡ before ++ tick now (some state) outputs compensations ∷ after
  pub waited : All (GoesOn deadline) before
  pub in_time : now ≤ deadline
  pub ends : ending_of false state outputs compensations ≡ some e

seen_later :
    (deadline : ℕ) (e : Ending) (r : Round) (rounds : List Round)
    → GoesOn deadline r
    → SeenFirst deadline e rounds
    → SeenFirst deadline e (r ∷ rounds)
seen_later deadline e r rounds g h = record {
  before = r ∷ h.before;
  after = h.after;
  now = h.now;
  state = h.state;
  outputs = h.outputs;
  compensations = h.compensations;
  split = ap (λ l. r ∷ l) h.split;
  waited = (g, h.waited);
  in_time = h.in_time;
  ends = h.ends;
}

-- In time, the round decides.
in_time_round :
    (deadline now : ℕ) (late x r : Option Ending)
    → ltb deadline now ≡ false
    → (if ltb deadline now then late else x) ≡ r
    → x ≡ r
in_time_round deadline now late x r e h = subst (λ b. (if b then late else x) ≡ r) e h

end_or_known :
    (later e r result : Option Ending) → e ≡ r → end_or e later ≡ result → end_or r later ≡ result
end_or_known later e r result is h = subst (λ x. end_or x later ≡ result) is h

-- The wait gives a result only for a saga that it has seen in a final state, in time, the first
-- time that there was a reason to end.
pub completed-SeenFirst :
    (deadline : ℕ) (rounds : List Round) (s : SagaState) (outputs : StringMap)
    → wait_for_saga_completion deadline rounds ≡ some (completed s outputs)
    → SeenFirst deadline (completed s outputs) rounds
unfolding wait_for_saga_completion
completed-SeenFirst deadline [] s outputs h = absurd (ground (arith, h))
completed-SeenFirst deadline (context_done ∷ rounds) s outputs h = absurd (ground (arith, h))
completed-SeenFirst deadline (tick now none o c ∷ rounds) s outputs h =
    elim (Bool-cases (ltb deadline now)) [
      | inl e ↦ absurd (ground (arith, e, h))
      | inr e ↦
          seen_later deadline (completed s outputs) (tick now none o c) rounds (ground (arith, e))
            (completed-SeenFirst deadline rounds s outputs (in_time_round deadline now _ _ _ e h))
    ]
completed-SeenFirst deadline (tick now (some state) o c ∷ rounds) s outputs h =
    elim (Bool-cases (ltb deadline now)) [
      | inl e ↦ absurd (ground (arith, e, h))
      | inr e ↦ elim (Option-cases (ending_of false state o c)) [
        | inl on ↦
            seen_later deadline (completed s outputs) (tick now (some state) o c) rounds
              (ground (arith, e), on)
              (completed-SeenFirst deadline rounds s outputs
                (end_or_known _ _ _ _ on (in_time_round deadline now _ _ _ e h)))
        | inr (e', is) ↦ record {
          before = [];
          after = rounds;
          now = now;
          state = state;
          outputs = o;
          compensations = c;
          split = refl;
          waited = tt;
          in_time = ground (arith, e);
          ends = is ∙ end_or_known _ _ _ _ is (in_time_round deadline now _ _ _ e h);
        }
      ]
    ]
