-- ===== src/Coordinator/Soundness/Send.antt =====
-- sendSagaStepExecutionRequest of pkg/trax/coordinator.go, in its transaction: what it publishes
-- and what it writes.
use trax.Prelude.{
  ◌⊎◌, ℕ, ◌+◌, ◌≤◌, arith, suc, String, ◌≡◌, refl, sym, subst, ◌∙◌, inl, inr, Bool, Bool-cases,
  false, true, none, some, List, ◌∷◌, ◌++◌,
}
use trax.State.{SagaState}
use trax.Model.{SagaStepInstance, StringMap}
use trax.Store.{Tables, World, M, pure, gets, modify, attempt, time_now, ◌>>=◌, ◌>>◌}
use trax.Store.Rows.{update_steps, set_step_history}
use trax.Store.Quiet.{lineage}
use trax.Store.Calls.{update_saga_step_execution_history}
use trax.Store.Outcome.{
  Outcome, Failed, bind-Outcome, last-Outcome, gets-Outcome, modify-Outcome, execute-Outcome, tick,
}
use trax.Coordinator.Running.{
  update_last, update_last_log, step_request, publish_request, send_request,
}
use trax.Coordinator.Running.Timing.{sent_at}
use trax.Coordinator.Transit.{transaction}
use trax.Coordinator.Rules.Chain.{Chain}
use trax.Coordinator.Soundness.Shapes.{Sound}
use trax.Coordinator.Soundness.Held.{Becomes}
use trax.Coordinator.Rules.Transitions.{saga_state}
use trax.Coordinator.Rules.Focus.{Focus, with_history, with_history-SameLinks}
use trax.Coordinator.Rules.Zipper.{Chain-update_here, saga_state-update_steps}
use trax.Coordinator.Rules.Loops.{clock_rule}
use trax.Coordinator.Rules.Transaction.{opened, transaction_of-Outcome}

-- The step once its request was sent.
abbrev pub dispatched : ℕ → ℕ → SagaStepInstance → SagaStepInstance
dispatched now timeout here = record here {
  execution_history = update_last (sent_at now timeout) here.execution_history;
}

-- The rest of the transaction, once the input is known.
abbrev deliver : Bool → StringMap → M (Unit {0})
deliver flag m = do
  publish_request flag m
  now ← time_now
  timeout ← gets (λ w. w.execution_timeout_ms)
  update_last_log
      (λ log. record log { execution_request_sent_ts = now; execution_timeout_ts = now + timeout })
  step ← gets (λ w. w.step)
  update_saga_step_execution_history step

-- The step as a transaction that begins in this world sends it, whose fourth call reads the clock.
abbrev pub sent_step : World → SagaStepInstance → SagaStepInstance
sent_step w here = dispatched (w.env.clock (suc (suc (suc w.calls)))) w.execution_timeout_ms here

-- The world once a request with this input is published.
abbrev after_publishing : Bool → StringMap → World → World
after_publishing flag m w = record w {
  calls = suc w.calls;
  published = step_request w flag m ∷ w.published;
}

module _ {κ} {B : Type κ} (R : B → World → Type 0) (F : World → Type 0) where
  publish_rule :
      (flag : Bool) (m : StringMap) (k : M B) (w : World)
      → (Failed w → F (tick w))
      → Outcome R F (k (after_publishing flag m w))
      → Outcome R F ((publish_request flag m >> k) w)
  unfolding publish_request step_request ◌>>=◌ attempt modify
  publish_rule flag m k w failed h = elim (Bool-cases (w.env.fails w.calls)) [
    | inl e ↦ rw e (failed (w.calls, e))
    | inr e ↦ rw e h
  ]

-- The environment is the same, the calls are counted up, and the sagas have the same parents.
abbrev pub Later : World → World → Type 0
Later w v = (v.env ≡ w.env) × (w.calls ≤ v.calls) × (lineage v.tables ≡ lineage w.tables)

already_failing : (w v : World) → Later w v → Failed v → Failed w
already_failing w v l (n, e) = (n, subst (λ env. env.fails n ≡ true) l.0 e)

-- A handler began in the world `w`, and `P` says which inputs the request may have.
module _ (g : String) (state : SagaState) (steps : List SagaStepInstance) (flag : Bool)
    (P : StringMap → Type 0) (w : World) where
  -- Exactly one message more is published, the request.
  abbrev pub Published : World → Type 0
  Published v = (m : StringMap) × P m × (v.published ≡ step_request w flag m ∷ w.published)

  -- The rows are sound: the saga and its steps are exactly the given ones.
  abbrev pub Rows : World → Type 0
  Rows v = Becomes g state steps v.tables

  -- The request is published, the rows say so, and no transaction is open.
  abbrev pub Sent : World → Type 0
  Sent v = (v.saved ≡ none) × Published v × Rows v × Later w v

  -- The handler has stopped, in an environment that makes some call fail: with everything done,
  -- or with no row changed and the request published or not.
  abbrev pub Unsent : World → Type 0
  Unsent v =
      (v.saved ≡ none)
      × Failed w
      × ((Published v × Rows v)
          ⊎ ((v.tables ≡ w.tables) × ((v.published ≡ w.published) ⊎ Published v)))

module _ (g : String) (state : SagaState) (before : List SagaStepInstance) (here : SagaStepInstance)
    (after : List SagaStepInstance) (flag : Bool) (P : StringMap → Type 0) (w : World)
    (focus : Focus g none state w here (before ++ here ∷ after))
    (sound : (t : Tables)
      → Chain g t (before ++ sent_step w here ∷ after)
      → saga_state g t ≡ some state
      → Sound g t) where
  abbrev steps : List SagaStepInstance
  steps = before ++ sent_step w here ∷ after

  -- The body has stopped.
  abbrev pub Broken : World → Type 0
  Broken v =
      (v.saved ≡ some w.tables)
      × Failed w
      × ((v.published ≡ w.published) ⊎ Published g state steps flag P w v)

  abbrev Done : Unit {0} → World → Type 0
  Done _ v =
      (v.saved ≡ some w.tables)
      × Published g state steps flag P w v
      × Rows g state steps flag P w v
      × Later w v

  change : SagaStepInstance → SagaStepInstance
  change s = record s {
    execution_history =
        update_last (sent_at (w.env.clock (suc (suc (suc w.calls)))) w.execution_timeout_ms)
          s.execution_history;
  }

  written :
      (s : SagaStepInstance)
      → s ≡ here
      → Becomes g state steps (set_step_history (change s) w.tables)
  unfolding set_step_history change
  written s same = rw same (sound _ chain row, chain, row)
    where
      chain : Chain g (set_step_history (change here) w.tables) steps
      chain =
          Chain-update_here g w.tables before here after focus.chain (with_history (change here))
            (with_history-SameLinks (change here))

      row : saga_state g (set_step_history (change here) w.tables) ≡ some state
      row =
          saga_state-update_steps g w.tables here.instance_id (with_history (change here))
          ∙ focus.row

  -- The body from the point where the input is known.
  send_body : (m : StringMap) → P m → Outcome Done Broken (deliver flag m (tick (opened w)))
  unfolding update_last_log update_saga_step_execution_history change step_request pure
      set_step_history update_steps
  send_body m p =
      publish_rule Done Broken flag m _ (tick (opened w)) (λ e. (refl, e, inl refl))
        (clock_rule Done Broken _ _ (
          gets-Outcome Done Broken (λ w. w.execution_timeout_ms) _ _
            (modify-Outcome Done Broken _ _ _ (
              gets-Outcome Done Broken (λ w. w.step) _ _
                (last-Outcome Done Broken _ _ (
                  execute-Outcome Done Broken _ _ _ (λ e. (refl, e, inr (m, p, refl)))
                    (
                      refl,
                      (m, p, refl),
                      written w.step focus.step_held,
                      (refl, omega arith, refl),
                    )))))))

  -- Where the input is read by one call, the handler publishes one request, writes the time and
  -- the end of the timeout into the last log, and asks for no other round.
  pub send_request-Sent :
      (input_of : M StringMap)
      → Outcome (λ m v. P m × (v ≡ tick (opened w))) Broken (input_of (opened w))
      → Outcome
          (λ again v.
            Sent g state (before ++ sent_step w here ∷ after) flag P w v × (again ≡ false))
          (Unsent g state (before ++ sent_step w here ∷ after) flag P w)
          (send_request flag input_of w)
  unfolding send_request pure transaction
  send_request-Sent input_of read =
      bind-Outcome (λ _ v. Sent g state steps flag P w v)
        (λ again v. Sent g state steps flag P w v × (again ≡ false)) (Unsent g state steps flag P w)
        _ _ w
        (transaction_of-Outcome (λ a. true) w.tables (λ _ v. Sent g state steps flag P w v) Done
          Broken (Unsent g state steps flag P w) (λ a v h. refl) (λ a v h. h.0)
          (λ a v h. (refl, h.1, h.2, (h.3.0, omega (arith, h.3.1), h.3.2)))
          (λ a v h e. (refl, already_failing w v h.3 e, inl (h.1, h.2)))
          (λ a v h e. (refl, already_failing w v h.3 e, inr (refl, inr h.1))) (λ v h. h.0)
          (λ v h. (refl, h.1, inr (refl, h.2))) _ w focus.saved_is
          (λ e. (focus.saved_is, e, inr (refl, inl refl))) refl
          (bind-Outcome (λ m v. P m × (v ≡ tick (opened w))) Done Broken input_of _ (opened w) read
            (λ m v h.
              subst (λ u. Outcome Done Broken (deliver flag m u)) (sym h.1) (send_body m h.0))))
        (λ _ v h. (h, refl))
