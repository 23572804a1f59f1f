-- ===== src/Broker/Memory/Termination.antt =====
-- The nesting of `publish` in InMemoryBroker.ts.
use mathlib.Core.Path.{fun_ext}
use queueway.Base.{
  zero, arith, ◌<◌, [], ◌∷◌, err, ok, inr, map, inl, continue, Bool-cases, List, Result, suc, true,
  ◌+◌, ◌≤◌, ◌≡◌, String, ℕ, refl,
}
use queueway.Store.Contract.{IStore}
use queueway.Store.Sqlite.{SqliteStore, sqlite_store}
use queueway.Retry.{should_retry, RetryManager}
use queueway.Engine.World.{set_status, World}
use queueway.Engine.Delivery.{failed_once, handle_retry, Handler}
use queueway.Types.{pending, Job}
use queueway.Broker.Memory.{
  Callback, Subscriptions, deliver_shared, fail_shared, handlers_of, publish, publish_within,
  requeue_shared, run_each, settle_shared,
}
use queueway.Broker.Memory.Attempts.{Grown, deliver-Grown, publish-Grown}

module _ {S : Type 0} (store : IStore S) (retry : RetryManager) (sleep : ℕ → World S → World S)
    (p q : String → Callback S) (event : String) where
  requeue_depends :
      (job : Job)
      → ((w : World S) → p event job w ≡ q event job w)
      → requeue_shared store retry sleep p event job ≡ requeue_shared store retry sleep q event job
  unfolding requeue_shared
  requeue_depends job h =
      fun_ext λ w. ground (arith, h (set_status store job.id pending job.attempts w).1)

  fail_depends :
      (job : Job) (w : World S)
      → (should_retry retry job ≡ true → (w : World S) → p event job w ≡ q event job w)
      → fail_shared store retry sleep p event job w ≡ fail_shared store retry sleep q event job w
  unfolding fail_shared handle_retry
  fail_depends job w h = elim (Bool-cases (should_retry retry job)) [
    | inl t ↦ rw (t, requeue_depends job (h t)) refl
    | inr t ↦ rw t refl
  ]

  settle_depends :
      (job : Job)
      → (should_retry retry (failed_once job) ≡ true
          → (w : World S) → p event (failed_once job) w ≡ q event (failed_once job) w)
      → (r : Result (Unit {0})) (w : World S)
      → settle_shared store retry sleep p event job r w
        ≡ settle_shared store retry sleep q event job r w
  settle_depends job h (ok _) w = refl
  settle_depends job h (err _) w = fail_depends (failed_once job) w h

  -- A delivery calls `publish` only on the job with one more attempt, and only below the limit.
  deliver_depends :
      (handler : Handler S) (job : Job) (w : World S)
      → (should_retry retry (failed_once job) ≡ true
          → (w : World S) → p event (failed_once job) w ≡ q event (failed_once job) w)
      → deliver_shared store retry sleep p event handler job w
        ≡ deliver_shared store retry sleep q event handler job w
  unfolding deliver_shared
  deliver_depends handler job w h =
      rw (fun_ext (λ (r : Result (Unit {0})). fun_ext (settle_depends job h r))) refl

  -- The later handlers get the object with at least as many attempts.
  continue_agrees :
      (job : Job) (r : Result Job) (f g : Callback S) (w : World S)
      → Grown job r
      → ((left : Job) (w : World S) → job.attempts ≤ left.attempts → f left w ≡ g left w)
      → continue r f w ≡ continue r g w
  continue_agrees job (ok left) f g w h k = k left w h
  continue_agrees job (err e) f g w h k = refl

  each_depends :
      ((job : Job) (w : World S) → Grown job (p event job w).0)
      → (least : ℕ)
      → ((job : Job) (w : World S)
          → least < job.attempts
          → should_retry retry job ≡ true
          → p event job w ≡ q event job w)
      → (hs : List (Handler S)) (job : Job) (w : World S) → least ≤ job.attempts
      → run_each (map (deliver_shared store retry sleep p event) hs) job w
        ≡ run_each (map (deliver_shared store retry sleep q event) hs) job w
  unfolding run_each
  each_depends grows least agree [] job w l = refl
  each_depends grows least agree (x ∷ hs) job w l =
      rw (← deliver_depends x job w (λ t w. agree (failed_once job) w (omega arith) t)) (
        continue_agrees job (deliver_shared store retry sleep p event x job w).0 _ _ _
          (deliver-Grown store retry sleep p event grows x job w)
          (λ left w k. each_depends grows least agree hs left w (omega arith)))

module _ {S : Type 0} (store : IStore S) (retry : RetryManager) (sleep : ℕ → World S → World S)
    (subs : Subscriptions S) (event : String) where
  below_limit : (job : Job) → should_retry retry job ≡ true → job.attempts < retry.max_attempts
  unfolding should_retry
  below_limit job t = ground arith

  module _ (beyond : String → Callback S) where
    depth_bounded :
        (n m : ℕ) (job : Job) (w : World S)
        → retry.max_attempts ≤ job.attempts + n
        → retry.max_attempts ≤ job.attempts + m
        → publish store retry sleep subs (suc n) event job w
          ≡ publish_within store retry sleep subs beyond (suc m) event job w
    unfolding publish
    depth_bounded zero m job w hn hm =
        each_depends store retry sleep (publish store retry sleep subs zero)
          (publish_within store retry sleep subs beyond m) event
          (publish-Grown store retry sleep subs event zero) job.attempts
          (λ j w l t. absurd (omega (arith, below_limit j t))) (handlers_of event subs.entries) job
          w (omega arith)
    depth_bounded (suc n) zero job w hn hm =
        each_depends store retry sleep (publish store retry sleep subs (suc n))
          (publish_within store retry sleep subs beyond zero) event
          (publish-Grown store retry sleep subs event (suc n)) job.attempts
          (λ j w l t. absurd (omega (arith, below_limit j t))) (handlers_of event subs.entries) job
          w (omega arith)
    depth_bounded (suc n) (suc m) job w hn hm =
        each_depends store retry sleep (publish store retry sleep subs (suc n))
          (publish_within store retry sleep subs beyond (suc m)) event
          (publish-Grown store retry sleep subs event (suc n)) job.attempts
          (λ j w l t. depth_bounded n m j w (omega arith) (omega arith))
          (handlers_of event subs.entries) job w (omega arith)

-- Publishing on the in-memory broker with the SQLite store, whose records are not the job object,
-- nests no deeper than the retry limit: with fuel that reaches from the attempts of the job to the
-- limit, the outcome and the job object that is left are the same for any two amounts of fuel,
-- whatever would happen when the fuel runs out, and whatever the handlers do with the engine's
-- world, retrying the job's record included.
pub publish_fuel :
    (retry : RetryManager) (sleep : ℕ → World SqliteStore → World SqliteStore)
    (subs : Subscriptions SqliteStore) (event : String) (beyond : String → Callback SqliteStore)
    (n m : ℕ) (job : Job) (w : World SqliteStore)
    → retry.max_attempts ≤ job.attempts + n
    → retry.max_attempts ≤ job.attempts + m
    → publish sqlite_store retry sleep subs (suc n) event job w
      ≡ publish_within sqlite_store retry sleep subs beyond (suc m) event job w
publish_fuel = depth_bounded sqlite_store
