-- ===== src/Broker/Memory/Attempts.antt =====
-- The job object of InMemoryBroker.ts: its attempts only ever go up.
use queueway.Base.{
  arith, invalid, ◌≤◌, ok, err, continue, inl, inr, Bool-cases, map, zero, suc, Result, String, ℕ,
  List, [], ◌∷◌,
}
use queueway.Store.Contract.{IStore}
use queueway.Retry.{get_retry_delay, should_retry, RetryManager}
use queueway.Types.{Job, pending, processing, retrying}
use queueway.Engine.World.{World, job_exists, set_status}
use queueway.Engine.Delivery.{Handler, failed_once, handle_retry, move_to_dlq}
use queueway.Broker.Memory.{
  Callback, Subscriptions, deliver_shared, fail_shared, handlers_of, publish, publish_within,
  requeue_shared, run_each, settle_shared,
}

-- A call that returned left at least the attempts that it found.
abbrev pub Grown : Job → Result Job → Type 0
Grown job (ok left) = job.attempts ≤ left.attempts
Grown job (err e) = Unit

Grown-continue :
    {W A : Type 0} (job : Job) (r : Result A) (f : A → W → Result Job × W) (w : W)
    → ((a : A) (w : W) → Grown job (f a w).0)
    → Grown job (continue r f w).0
Grown-continue job (ok a) f w h = h a w
Grown-continue job (err e) f w h = tt

Grown-failed : (job : Job) (r : Result Job) → Grown (failed_once job) r → Grown job r
Grown-failed job (ok left) h = omega arith
Grown-failed job (err e) h = tt

module _ {S : Type 0} (store : IStore S) (retry : RetryManager) (sleep : ℕ → World S → World S)
    (p : String → Callback S) (event : String)
    (grows : (job : Job) (w : World S) → Grown job (p event job w).0) where
  requeue-Grown :
      (job : Job) (w : World S) → Grown job (requeue_shared store retry sleep p event job w).0
  unfolding requeue_shared
  requeue-Grown job w = elim (Bool-cases (job_exists store w job.id)) [
    | inl t ↦ rw t (
        Grown-continue job (set_status store job.id pending job.attempts w).0 _ _
          (λ _ w. grows job w))
    | inr t ↦ rw t (omega arith)
  ]

  fail-Grown : (job : Job) (w : World S) → Grown job (fail_shared store retry sleep p event job w).0
  unfolding fail_shared handle_retry
  fail-Grown job w = elim (Bool-cases (should_retry retry job)) [
    | inl t ↦ rw t (
        Grown-continue job (set_status store job.id retrying job.attempts w).0 _ _
          (λ _ w. rw t (requeue-Grown job (sleep (get_retry_delay retry job.attempts) w))))
    | inr t ↦ rw t (elim (Bool-cases (job_exists store w job.id)) [
      | inl u ↦ rw u (Grown-continue job (move_to_dlq store job w).0 _ _ (λ _ w. omega arith))
      | inr u ↦ rw u (omega arith)
    ])
  ]

  settle-Grown :
      (job : Job) (r : Result (Unit {0})) (w : World S)
      → Grown job (settle_shared store retry sleep p event job r w).0
  settle-Grown job (ok _) w = omega arith
  settle-Grown job (err _) w = Grown-failed job _ (fail-Grown (failed_once job) w)

  pub deliver-Grown :
      (handler : Handler S) (job : Job) (w : World S)
      → Grown job (deliver_shared store retry sleep p event handler job w).0
  unfolding deliver_shared
  deliver-Grown handler job w = elim (Bool-cases (job_exists store w job.id)) [
    | inl t ↦ rw t (
        Grown-continue job (set_status store job.id processing job.attempts w).0 _ _
          (λ _ w'. settle-Grown job _ _))
    | inr t ↦ rw t (omega arith)
  ]

  Grown-then :
      (job : Job) (r : Result Job) (f : Callback S) (w : World S)
      → Grown job r
      → ((left : Job) (w : World S) → Grown left (f left w).0)
      → Grown job (continue r f w).0
  Grown-then job (ok left) f w h k = further (f left w).0 (k left w)
    where
      further : (r : Result Job) → Grown left r → Grown job r
      further (ok last) g = omega arith
      further (err e) g = tt
  Grown-then job (err e) f w h k = tt

  each-Grown :
      (hs : List (Handler S)) (job : Job) (w : World S)
      → Grown job (run_each (map (deliver_shared store retry sleep p event) hs) job w).0
  unfolding run_each
  each-Grown [] job w = omega arith
  each-Grown (x ∷ hs) job w =
      Grown-then job (deliver_shared store retry sleep p event x job w).0 _ _
        (deliver-Grown x job w) (each-Grown hs)

module _ {S : Type 0} (store : IStore S) (retry : RetryManager) (sleep : ℕ → World S → World S)
    (subs : Subscriptions S) (event : String) where
  within-Grown :
      (beyond : String → Callback S)
      → ((job : Job) (w : World S) → Grown job (beyond event job w).0)
      → (fuel : ℕ) (job : Job) (w : World S)
      → Grown job (publish_within store retry sleep subs beyond fuel event job w).0
  unfolding publish_within
  within-Grown beyond grows zero job w = grows job w
  within-Grown beyond grows (suc fuel) job w =
      each-Grown store retry sleep (publish_within store retry sleep subs beyond fuel) event
        (within-Grown beyond grows fuel) (handlers_of event subs.entries) job w

  pub publish-Grown :
      (fuel : ℕ) (job : Job) (w : World S)
      → Grown job (publish store retry sleep subs fuel event job w).0
  unfolding publish
  publish-Grown = within-Grown (λ _ _ w. (err invalid, w)) (λ _ _. tt)
