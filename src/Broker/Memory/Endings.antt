-- ===== src/Broker/Memory/Endings.antt =====
-- What becomes of a job that is published on the in-memory broker: all its retries together.
use queueway.Base.{
  arith, ◌≡◌, ◌∙◌, ◌+◌, ◌-◌, ◌<◌, ◌≤◌, ◌∷◌, [], zero, suc, ok, some, true, false, refl, lt→ltb,
  le→ltb, ltb, min, if◌then◌else◌, Result, String, ℕ,
}
use native.Mathlib.Decide.{dec_lt}
use queueway.Store.Contract.{IStore, IsStore}
use queueway.Retry.{should_retry, RetryManager}
use queueway.Types.{Job, JobStatus, completed, failed, patch, pending}
use queueway.Engine.World.{World}
use queueway.Engine.Delivery.{Handler, failed_once}
use queueway.Broker.Memory.{Callback, Subscriptions, deliver_shared, handlers_of, publish, run_each}
use queueway.Broker.Memory.Deliveries.{
  Holds, Rests, Returns, Throws, delivery_gives_up, delivery_goes_on, delivery-Returns,
}

abbrev pub with_attempts : Job → ℕ → Job
with_attempts job m = record job { attempts = m }

module _ {S : Type 0} {store : IStore S} (law : IsStore store) (retry : RetryManager)
    (sleep : ℕ → World S → World S) (rests : Rests law sleep) (subs : Subscriptions S)
    (event : String) where
  pub retries : (job : Job) → job.attempts < retry.max_attempts → should_retry retry job ≡ true
  unfolding should_retry
  retries job h = ground arith

  pub gives_up : (job : Job) → retry.max_attempts ≤ job.attempts → should_retry retry job ≡ false
  unfolding should_retry
  gives_up job h = ground arith

  abbrev pub call_of : ℕ → Callback S
  call_of fuel = publish store retry sleep subs fuel event

  -- The publish has ended: so many attempts are counted, in the object and in the record, which has
  -- this status, and so many handlers were called in all.
  abbrev pub Ends : (job r : Job) → JobStatus → (m n : ℕ) → Result Job × World S → Type 0
  Ends job r st m n p =
      (w : World S) × (p ≡ (ok (with_attempts job m), w))
      × Holds law job.id (patch st (some m) r) n w

  pub Ends-at :
      (job r : Job) (st : JobStatus) {m m' n n' : ℕ} (p : Result Job × World S)
      → m ≡ m'
      → n ≡ n'
      → Ends job r st m n p
      → Ends job r st m' n' p
  Ends-at job r st p e f (w, q, held) = (w, rw (← e) q, rw (← e, ← f) held)

  module _ (handler : Handler S) (alone : handlers_of event subs.entries ≡ handler ∷ []) where
    publish_alone :
        (fuel : ℕ) (job left : Job) (w w' : World S)
        → deliver_shared store retry sleep (publish store retry sleep subs fuel) event handler job w
          ≡ (ok left, w')
        → call_of (suc fuel) job w ≡ (ok left, w')
    unfolding publish run_each
    publish_alone fuel job left w w' e = rw alone (rw e refl)

    -- The handler throws below the limit, and what the nested publish ends with is the end of all.
    goes_on :
        (fuel : ℕ) (job r : Job) (st : JobStatus) (n m c : ℕ) (w : World S)
        → Holds law job.id r n w
        → Throws law handler job
        → job.attempts + 1 < retry.max_attempts
        → ((w : World S)
            → Holds law job.id (patch pending (some (job.attempts + 1)) r) (n + 1) w
            → Ends job r st m c (call_of fuel (failed_once job) w))
        → Ends job r st m c (call_of (suc fuel) job w)
    goes_on fuel job r st n m c w now throws below nested =
        let (w₁, q, held) =
          delivery_goes_on law retry sleep rests (publish store retry sleep subs fuel) event handler
            job r n w now throws (retries (failed_once job) below) in
        let (w₂, q', held') = nested w₁ held in
        (w₂, publish_alone fuel job (with_attempts job m) w w₂ (q ∙ q'), held')

    module _ (k : ℕ) (fails : (j : Job) → j.attempts < k → Throws law handler j)
        (returns : (j : Job) → k ≤ j.attempts → Returns law handler j) where
      completes :
          (fuel : ℕ) (job r : Job) (n : ℕ) (w : World S)
          → Holds law job.id r n w
          → k < retry.max_attempts
          → job.attempts ≤ k
          → retry.max_attempts ≤ job.attempts + fuel
          → Ends job r completed k (n + (k - job.attempts) + 1) (call_of (suc fuel) job w)
      completes zero job r n w now lt le enough = absurd (omega arith)
      completes (suc fuel) job r n w now lt le enough = elim (dec_lt job.attempts k) [
        | yes below ↦
            goes_on (suc fuel) job r completed n k (n + (k - job.attempts) + 1) w now
              (fails job below) (omega arith)
              (λ w₁ held.
                Ends-at job r completed _ refl (omega arith) (
                  completes fuel (failed_once job) _ (n + 1) w₁ held lt (omega arith)
                    (omega arith)))
        | no done ↦
            let (w', q, held) =
              delivery-Returns law retry sleep rests (publish store retry sleep subs (suc fuel))
                event handler job r n w now (returns job (omega arith)) in
            Ends-at job r completed _ (omega arith) (omega arith)
              (w', publish_alone (suc fuel) job job w w' q, held)
      ]

      exhausts :
          (fuel : ℕ) (job r : Job) (n : ℕ) (w : World S)
          → Holds law job.id r n w
          → retry.max_attempts ≤ k
          → job.attempts < retry.max_attempts
          → retry.max_attempts ≤ job.attempts + fuel
          → Ends job r failed retry.max_attempts
              (n + (retry.max_attempts - job.attempts))
              (call_of (suc fuel) job w)
      exhausts zero job r n w now le lt enough = absurd (omega arith)
      exhausts (suc fuel) job r n w now le lt enough =
          elim (dec_lt (job.attempts + 1) retry.max_attempts) [
            | yes below ↦
                goes_on (suc fuel) job r failed n retry.max_attempts
                  (n + (retry.max_attempts - job.attempts)) w now (fails job (omega arith)) below
                  (λ w₁ held.
                    Ends-at job r failed _ refl (omega arith)
                      (exhausts fuel (failed_once job) _ (n + 1) w₁ held le below (omega arith)))
            | no last ↦
                let (w', q, held) =
                  delivery_gives_up law retry sleep rests
                    (publish store retry sleep subs (suc fuel)) event handler job r n w now
                    (fails job (omega arith)) (gives_up (failed_once job) (omega arith)) in
                Ends-at job r failed _ (omega arith) (omega arith)
                  (w', publish_alone (suc fuel) job (failed_once job) w w' q, held)
          ]

      -- The name of the status in which the job ends.
      abbrev last_status : JobStatus
      last_status = if ltb k retry.max_attempts then completed else failed

      -- When an event has one handler on the in-memory broker, which throws until k attempts of the
      -- job have failed and then returns, the store stays reachable, and nobody else touches the
      -- job's record or calls a handler, publishing a recorded job that has at most k failed
      -- attempts and fewer than the limit returns: after k failed attempts as completed, or at the
      -- retry limit as failed. The record and the job object have those attempts, and the handler
      -- was called once for each new failed attempt, and once more if it returned.
      pub publish-Ends :
          (fuel : ℕ) (job r : Job) (n : ℕ) (w : World S)
          → Holds law job.id r n w
          → job.attempts ≤ k
          → job.attempts < retry.max_attempts
          → retry.max_attempts ≤ job.attempts + fuel
          → Ends job r last_status
              (min k retry.max_attempts)
              (n
                + (min k retry.max_attempts - job.attempts)
                + (if ltb k retry.max_attempts then 1 else 0))
              (call_of (suc fuel) job w)
      publish-Ends fuel job r n w now le lt enough = elim (dec_lt k retry.max_attempts) [
        | yes below ↦ rw (lt→ltb _ _ below) (
            Ends-at job r completed _ (omega arith) (omega arith)
              (completes fuel job r n w now below le enough))
        | no above ↦ rw (le→ltb k retry.max_attempts (omega arith)) (
            Ends-at job r failed _ (omega arith) (omega arith)
              (exhausts fuel job r n w now (omega arith) lt enough))
      ]
