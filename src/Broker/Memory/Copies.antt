-- ===== src/Broker/Memory/Copies.antt =====
-- The callback of `subscribe` on a shared job object, against the one on a copy of its own.
use queueway.Base.{
  arith, ◌≡◌, refl, ◌>>◌, ok, err, pure, continue, inl, inr, Bool-cases, Result, String, ℕ, Exec,
}
use queueway.Store.Contract.{IStore}
use queueway.Retry.{get_retry_delay, should_retry, RetryManager}
use queueway.Types.{Job, processing, retrying}
use queueway.Engine.World.{World, job_exists, set_status}
use queueway.Engine.Delivery.{
  Handler, deliver, failed_once, handle_retry, on_failure, requeue, settle,
}
use queueway.Broker.Memory.{
  Callback, deliver_shared, fail_shared, in_memory_traits, requeue_shared, settle_shared,
}

-- Nobody looks at the object after the call.
abbrev pub forget : {S : Type 0} → Callback S → Handler S
forget m job = do m job; pure tt

-- The value of a call is dropped.
abbrev dropped : {W A : Type 0} → Result A × W → Result (Unit {0}) × W
dropped p = continue p.0 (λ _. pure tt) p.1

dropped-continue :
    {W A B : Type 0} (r : Result A) (f : A → Exec W B) (g : A → Exec W (Unit {0})) (w : W)
    → ((a : A) (w : W) → dropped (f a w) ≡ g a w)
    → dropped (continue r f w) ≡ continue r g w
dropped-continue (ok a) f g w h = h a w
dropped-continue (err e) f g w h = refl

module _ {S : Type 0} (store : IStore S) (retry : RetryManager) (sleep : ℕ → World S → World S)
    (p : String → Callback S) (event : String) where
  abbrev unshared : String → Handler S
  unshared e = forget (p e)

  requeue-forget :
      (job : Job) (w : World S)
      → forget (requeue_shared store retry sleep p event) job w ≡ requeue store unshared event job w
  unfolding requeue_shared requeue
  requeue-forget job w = ground arith

  on_failure-forget :
      (job : Job) (w : World S)
      → forget (fail_shared store retry sleep p event) job w
        ≡ on_failure store in_memory_traits retry sleep unshared event job w
  unfolding fail_shared on_failure handle_retry
  on_failure-forget job w = elim (Bool-cases (should_retry retry job)) [
    | inl t ↦ rw t (
        dropped-continue (set_status store job.id retrying job.attempts w).0 _ _
          (set_status store job.id retrying job.attempts w).1
          (λ _ w. rw t (requeue-forget job (sleep (get_retry_delay retry job.attempts) w))))
    | inr t ↦ rw t (ground arith)
  ]

  settle-forget :
      (job : Job) (r : Result (Unit {0})) (w : World S)
      → (do settle_shared store retry sleep p event job r; pure tt) w
        ≡ settle store in_memory_traits retry sleep unshared event job r w
  settle-forget job (ok _) w = refl
  settle-forget job (err _) w = on_failure-forget (failed_once job) w

  -- Apart from the object that it leaves, a delivery on the shared object is the delivery of the
  -- other brokers, where those neither redeliver nor acknowledge.
  pub deliver-forget :
      (handler : Handler S) (job : Job) (w : World S)
      → forget (deliver_shared store retry sleep p event handler) job w
        ≡ deliver store in_memory_traits retry sleep unshared event handler job w
  unfolding deliver_shared deliver
  deliver-forget handler job w = elim (Bool-cases (job_exists store w job.id)) [
    | inl t ↦ rw t (
        dropped-continue (set_status store job.id processing job.attempts w).0 _ _
          (set_status store job.id processing job.attempts w).1 (λ _ w'. settle-forget job _ _))
    | inr t ↦ rw t refl
  ]
