-- ===== src/Coordinator/Soundness/Initiate.antt =====
-- initiateCompensationForCommittedSaga keeps a saga sound.

use trax.Prelude.{
  String, ◌≡◌, refl, sym, ap, subst, inl, inr, Bool-cases, none, some, List, [], ◌∷◌, ◌++◌, ◌==◌,
  All-append, all, map, get_last?-append,
}
use trax.State.{
  execution_done, compensation_pending, compensation_candidate, running, compensation_requested,
  step_is,
}
use trax.Model.{SagaStepInstance}
use trax.Store.{Tables, World, M, pure, gets, modify, attempt, try, ◌>>=◌, ◌>>◌}
use trax.Store.Rows.{with_state}
use trax.Store.Calls.{update_saga_state, get_saga_instance}
use trax.Store.Outcome.{Outcome, bind-Outcome, last-Outcome, modify-Outcome, then-Outcome, tick}
use trax.Coordinator.Transit.{transit_each, transaction}
use trax.Coordinator.Initiate.{
  init, requested_reason, start_backward_walk, walk_back, initiate_compensation_for_committed_saga,
}
use trax.Coordinator.Rules.Chain.{Chain}
use trax.Coordinator.Rules.Transitions.{ordered_steps-Outcome}
use trax.Coordinator.Rules.Focus.{Focus, step_rule}
use trax.Coordinator.Rules.Loops.{state_rule, each_rule}
use trax.Coordinator.Soundness.Shapes.{Are, backward}
use trax.Coordinator.Soundness.Held.{
  Becomes, Inside, Made, Stopped, Saved, transaction_rule, all-Are,
}
use trax.Coordinator.Soundness.Turn.{Are-map}

init-append {ℓ} : {A : Type ℓ} (xs : List A) (x : A) → init (xs ++ x ∷ []) ≡ xs
unfolding init
init-append [] x = refl
init-append (y ∷ []) x = refl
init-append (y ∷ z ∷ xs) x = ap (λ l. y ∷ l) (init-append (z ∷ xs) x)

-- Reading the parent's reason changes nothing that a handler holds.
module _ {κ} {B : Type κ} (R : B → World → Type 0) (F : World → Type 0) where
  reason_rule :
      (k : String → M B) (w : World)
      → ((reason : String) → Outcome R F (k reason w) × Outcome R F (k reason (tick w)))
      → Outcome R F ((requested_reason >>= k) w)
  unfolding requested_reason get_saga_instance ◌>>=◌ gets try attempt pure
  reason_rule k w h = elim (Bool-cases (w.saga.parent_saga_instance_id == "")) [
    | inl a ↦ rw a (h _).0
    | inr a ↦
        rw a
          (elim (Bool-cases (w.env.fails w.calls)) [ inl b ↦ rw b (h _).1 | inr b ↦ rw b (h _).1 ])
  ]

module _ (g : String) (before : List SagaStepInstance) (last step : SagaStepInstance) where
  -- The last step is to be compensated, and all others wait for it.
  abbrev pub Requested : Tables → Type 0
  Requested =
      Becomes g running (
        map (with_state compensation_pending) before ++ with_state compensation_candidate last ∷ [])

  abbrev R : Tables → Unit {0} → World → Type 0
  R t _ v = Inside t Requested v

  -- The loop over the steps before the last, and the saga itself.
  walk :
      (t : Tables) (w : World)
      → Focus g (some t) compensation_requested w step (before ++ last ∷ [])
      → Outcome (R t) (Saved t) (
          (do
            fresh ← trax.Coordinator.Transit.transit_saga_step_to_state last compensation_candidate
            transit_each before compensation_pending
            update_saga_state running)
            w)
  unfolding pure
  walk t w f =
      step_rule g (some t) compensation_requested (R t) (Saved t) (λ v s e. (s, e)) w step
        compensation_candidate before last [] _ f
        (λ v f.
          bind-Outcome
            (λ _ v. Focus g (some t) compensation_requested v step (prepared ++ last' ∷ [])) (R t)
            (Saved t) _ _ v
            (each_rule g (some t) compensation_requested _ (Saved t) (λ v s e. (s, e)) step
              compensation_pending [] before (last' ∷ []) v f (λ v f. f))
            (λ _ v f. last-Outcome (R t) (Saved t) (update_saga_state running) v (
              state_rule g (some t) compensation_requested (R t) (Saved t) (λ v s e. (s, e)) step v
                running (prepared ++ last' ∷ []) _ f
                (λ v f. (
                  f.saved_is,
                  (
                    backward prepared last' [] f.chain f.row (record {
                      pending = Are-map compensation_pending before;
                      active = tt;
                      undone = tt;
                    }),
                    f.chain,
                    f.row,
                  ),
                )))))
    where
      last' : SagaStepInstance
      last' = with_state compensation_candidate last

      prepared : List SagaStepInstance
      prepared = map (with_state compensation_pending) before

  start_body :
      (t : Tables) (w : World)
      → Focus g (some t) compensation_requested w step (before ++ last ∷ [])
      → Outcome (R t) (Saved t) (start_backward_walk last before w)
  unfolding start_backward_walk
  start_body t w f = reason_rule (R t) (Saved t) after_reason w λ reason. (
    modify-Outcome (R t) (Saved t) (reason_is reason) rest w
        (walk t (reason_is reason w) (with_reason reason f)),
    modify-Outcome (R t) (Saved t) (reason_is reason) rest (tick w)
        (walk t (reason_is reason (tick w)) (with_reason reason (ticked f))),
  )
    where
      reason_is : String → World → World
      reason_is reason w = record w { saga = record w.saga { compensation_reason = reason } }

      rest : Unit {0} → M (Unit {0})
      rest _ = do
        fresh ← trax.Coordinator.Transit.transit_saga_step_to_state last compensation_candidate
        transit_each before compensation_pending
        update_saga_state running

      after_reason : String → M (Unit {0})
      after_reason reason = modify (reason_is reason) >>= rest

      with_reason :
          {v : World} (reason : String)
          → Focus g (some t) compensation_requested v step (before ++ last ∷ [])
          → Focus g (some t) compensation_requested (reason_is reason v) step (before ++ last ∷ [])
      with_reason reason f = record {
        saved_is = f.saved_is;
        saga_held = f.saga_held;
        step_held = f.step_held;
        chain = f.chain;
        row = f.row;
        state_held = f.state_held;
      }

      ticked :
          {v : World}
          → Focus g (some t) compensation_requested v step (before ++ last ∷ [])
          → Focus g (some t) compensation_requested (tick v) step (before ++ last ∷ [])
      ticked f = record {
        saved_is = f.saved_is;
        saga_held = f.saga_held;
        step_held = f.step_held;
        chain = f.chain;
        row = f.row;
        state_held = f.state_held;
      }

  -- A handler holds a saga for which compensation is requested and all of whose steps are done,
  -- with no transaction open. initiateCompensationForCommittedSaga sets the last step to
  -- COMPENSATION_CANDIDATE, all others to COMPENSATION_PENDING and the saga to RUNNING. It stops
  -- only in an environment that makes some call fail, with all of this done or none of it, and no
  -- transaction is open at the end. It never marks the saga invalid, panics or loops for ever.
  pub initiate_compensation_for_committed_saga-Made :
      (w : World)
      → Focus g none compensation_requested w step (before ++ last ∷ [])
      → Are execution_done before
      → last.state ≡ execution_done
      → Outcome
          (λ _ v. Made Requested v)
          (Stopped w.tables Requested)
          (initiate_compensation_for_committed_saga w)
  unfolding initiate_compensation_for_committed_saga walk_back
  initiate_compensation_for_committed_saga-Made w focus d done =
      ordered_steps-Outcome Q F steps _ w
        (subst (λ i. Chain i w.tables steps) (sym focus.saga_held) focus.chain)
        (λ e. (focus.saved_is, e, inl refl))
        (subst (λ o. Outcome Q F (walk_back o steps (tick w))) (sym (get_last?-append before last))
          (then-Outcome Q F (all (λ s. step_is s.state execution_done) steps) _ _ (tick w)
            (all-Are execution_done steps
              (All-append (λ s. s.state ≡ execution_done) before (last ∷ []) d (done, tt)))
            (rw (init-append before last) (
              transaction_rule g compensation_requested (tick w) step steps Requested
                (start_backward_walk last before)
                (record {
                  saved_is = focus.saved_is;
                  saga_held = focus.saga_held;
                  step_held = focus.step_held;
                  chain = focus.chain;
                  row = focus.row;
                  state_held = focus.state_held;
                })
                (start_body w.tables _)))))
    where
      steps : List SagaStepInstance
      steps = before ++ last ∷ []

      Q : Unit {0} → World → Type 0
      Q _ v = Made Requested v

      F : World → Type 0
      F = Stopped w.tables Requested
