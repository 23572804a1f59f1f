-- ===== src/Broker/Memory/Siblings.antt =====
-- Two handlers of one event on the in-memory broker, which share the job and its record.
use native.Mathlib.Decide.{dec_lt}
use queueway.Base.{
  arith, ◌≡◌, ◌∙◌, ◌+◌, ◌-◌, ◌*◌, ◌<◌, ◌≤◌, ◌∷◌, [], zero, suc, ok, some, refl, String, ℕ,
}
use queueway.Store.Contract.{IStore, IsStore}
use queueway.Retry.{RetryManager}
use queueway.Types.{Job, completed, failed, pending, patch}
use queueway.Engine.World.{World}
use queueway.Engine.Delivery.{Handler, failed_once}
use queueway.Broker.Memory.{Subscriptions, deliver_shared, handlers_of, publish, run_each}
use queueway.Broker.Memory.Deliveries.{
  Holds, Rests, Returns, Throws, delivery_gives_up, delivery_goes_on, delivery-Returns,
}
use queueway.Broker.Memory.Endings.{Ends, Ends-at, gives_up, retries, with_attempts}

module _ {S : Type 0} {store : IStore S} (law : IsStore store) (retry : RetryManager)
    (sleep : ℕ → World S → World S) (rests : Rests law sleep) (subs : Subscriptions S)
    (event : String) (failing fine : Handler S)
    (both : handlers_of event subs.entries ≡ failing ∷ fine ∷ [])
    (fails : (j : Job) → Throws law failing j) (returns : (j : Job) → Returns law fine j) where
  publish_both :
      (fuel : ℕ) (job left : Job) (w w₁ w₂ : World S)
      → deliver_shared store retry sleep (publish store retry sleep subs fuel) event failing job w
        ≡ (ok left, w₁)
      → deliver_shared store retry sleep (publish store retry sleep subs fuel) event fine left w₁
        ≡ (ok left, w₂)
      → publish store retry sleep subs (suc fuel) event job w ≡ (ok left, w₂)
  unfolding publish run_each
  publish_both fuel job left w w₁ w₂ e f = rw both (rw e (rw f refl))

  -- When the failing handler's delivery has ended, the fine one completes the job.
  then_completes :
      (fuel : ℕ) (job r : Job) (m n : ℕ) (w w₁ : World S)
      → deliver_shared store retry sleep (publish store retry sleep subs fuel) event failing job w
        ≡ (ok (with_attempts job m), w₁)
      → Holds law job.id r n w₁
      → Ends law retry sleep rests subs event job r completed m
          (n + 1)
          (publish store retry sleep subs (suc fuel) event job w)
  then_completes fuel job r m n w w₁ e held =
      let left = with_attempts job m in
      let (w₂, f, held') =
        delivery-Returns law retry sleep rests (publish store retry sleep subs fuel) event fine left
          r n w₁ held (returns left) in
      (w₂, publish_both fuel job left w w₁ w₂ e f, held')

  -- When an event has two handlers on the in-memory broker, the first of which always throws and
  -- the second of which returns, the store stays reachable, and nobody else touches the job's
  -- record or calls a handler, publishing a recorded job below the retry limit ends with the job
  -- completed, with as many failed attempts as the limit, although its first handler has used up
  -- all its retries, after two calls of a handler for every one of the new failed attempts.
  pub publish_revives :
      (fuel : ℕ) (job r : Job) (n : ℕ) (w : World S)
      → Holds law job.id r n w
      → job.attempts < retry.max_attempts
      → retry.max_attempts ≤ job.attempts + fuel
      → Ends law retry sleep rests subs event job r completed retry.max_attempts
          (n + 2 * (retry.max_attempts - job.attempts))
          (publish store retry sleep subs (suc fuel) event job w)
  publish_revives zero job r n w now lt enough = absurd (omega arith)
  publish_revives (suc fuel) job r n w now lt enough =
      elim (dec_lt (job.attempts + 1) retry.max_attempts) [
        | yes below ↦
            let (w₁, q, held) =
              delivery_goes_on law retry sleep rests (publish store retry sleep subs (suc fuel))
                event failing job r n w now (fails job)
                (retries law retry sleep rests subs event (failed_once job) below) in
            let (w₂, q', held') =
              publish_revives fuel (failed_once job) (patch pending (some (job.attempts + 1)) r)
                (n + 1) w₁ held below (omega arith) in
            Ends-at law retry sleep rests subs event job r completed _ refl (omega arith) (
              then_completes (suc fuel) job (patch completed (some retry.max_attempts) r)
                retry.max_attempts _ w w₂ (q ∙ q') held')
        | no last ↦
            let (w₁, q, held) =
              delivery_gives_up law retry sleep rests (publish store retry sleep subs (suc fuel))
                event failing job r n w now (fails job)
                (gives_up law retry sleep rests subs event (failed_once job) (omega arith)) in
            Ends-at law retry sleep rests subs event job r completed _ (omega arith) (omega arith) (
              then_completes (suc fuel) job (patch failed (some (job.attempts + 1)) r)
                (job.attempts + 1) (n + 1) w w₁ q held)
      ]
