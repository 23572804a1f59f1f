-- ===== src/Broker/Memory.antt =====
-- packages/core/src/broker/InMemoryBroker.ts with the engine: `publish` runs the handlers of the event
-- at once, and a retry publishes again from inside a handler. All of them are given the one job
-- object, and the callback of `subscribe` counts a failed attempt in that object: so here each call
-- returns the object as it leaves it. The records of the store are other objects, as SQLiteStore.ts and
-- PostgreSQLStore.ts have them. The record in InMemoryStore.ts is the job object itself: what a delivery
-- writes to it the object has already, but what somebody else writes to it during a delivery, a retry
-- that sets its attempts to 0, changes the object there and not here. `fuel` bounds how deep the calls nest; `Termination` shows how
-- much is enough, and `Copies` compares the callback with the one of the other brokers.
pub mod Attempts
pub mod Copies
pub mod Deliveries
pub mod Endings
pub mod Restarting
pub mod Settled
pub mod Settling
pub mod Siblings
pub mod Termination
use queueway.Base.{
  zero, map, suc, ◌==◌, invalid, continue, attempt, pure, if◌then◌else◌, [], err, ◌∷◌, ◌>>=◌, ◌>>◌,
  ℕ, ◌++◌, ok, false, not, String, List, Result, Exec,
}
use queueway.Engine.World.{World, BrokerTraits, job_exists, set_status}
use queueway.Store.Contract.{IStore}
use queueway.Retry.{should_retry, RetryManager}
use queueway.Types.{Job, processing, completed, retrying, pending}
use queueway.Engine.Delivery.{call, failed_once, handle_retry, move_to_dlq, Handler}

-- `Map<string, Array<handler>>`, in the order of subscription. A handler of the user's changes the
-- world and leaves the job object alone.
pub record Subscriptions (S : Type 0) : Type 0 where
  pub entries : List (String × Handler S)

abbrev pub in_memory_traits : BrokerTraits
in_memory_traits = record {
  retains_pending_jobs = false;
  guarantees_redelivery = false;
  acknowledges_delivery = false;
}

-- The handlers of an event, oldest first.
abbrev pub handlers_of : {S : Type 0} → String → List (String × Handler S) → List (Handler S)
handlers_of event [] = []
handlers_of event ((e, h) ∷ hs) =
    let rest = handlers_of event hs in if e == event then h ∷ rest else rest

unfoldable pub subscribe : {S : Type 0} → String → Handler S → Subscriptions S → Subscriptions S
subscribe event handler subs = record { entries = subs.entries ++ (event, handler) ∷ [] }

-- A call on the job object, which it may change.
abbrev pub Callback : Type 0 → Type 0
Callback S = Job → Exec (World S) Job

-- `for (const handler of handlers) await handler(job)`
unfoldable pub run_each : {S : Type 0} → List (Callback S) → Callback S
run_each [] job w = (ok job, w)
run_each (h ∷ hs) job w = continue (h job w).0 (λ left. run_each hs left) (h job w).1

-- The callback of `subscribe` of Queueway.ts for a broker that neither redelivers nor acknowledges.
module _ {S : Type 0} (store : IStore S) (retry : RetryManager) (sleep : ℕ → World S → World S)
    (publish : String → Callback S) where
  unfoldable pub requeue_shared : String → Callback S
  requeue_shared event job w =
      if job_exists store w job.id
      then (do set_status store job.id pending job.attempts; publish event job) w
      else (ok job, w)

  -- The `catch` block, on the object with its attempts already counted up.
  unfoldable pub fail_shared : String → Callback S
  fail_shared event job w =
      if should_retry retry job
      then (do
        set_status store job.id retrying job.attempts
        handle_retry retry sleep job
        requeue_shared event job)
          w
      else if job_exists store w job.id
      then (do move_to_dlq store job; pure job) w
      else (ok job, w)

  abbrev pub settle_shared : String → Job → Result (Unit {0}) → Exec (World S) Job
  settle_shared event job (ok _) w = (ok job, w)
  settle_shared event job (err _) w = fail_shared event (failed_once job) w

  unfoldable pub deliver_shared : String → Handler S → Callback S
  deliver_shared event handler job w =
      if not (job_exists store w job.id)
      then (ok job, w)
      else (do
        set_status store job.id processing job.attempts
        r ← attempt (do call handler job; set_status store job.id completed job.attempts)
        settle_shared event job r)
          w

module _ {S : Type 0} (store : IStore S) (retry : RetryManager) (sleep : ℕ → World S → World S)
    (subs : Subscriptions S) where
  -- `beyond` is what a call does that nests deeper than the fuel.
  unfoldable pub publish_within : (String → Callback S) → ℕ → String → Callback S
  publish_within beyond zero event job w = beyond event job w
  publish_within beyond (suc fuel) event job w =
      run_each
        (map (deliver_shared store retry sleep (publish_within beyond fuel) event)
          (handlers_of event subs.entries))
        job w

  unfoldable pub publish : ℕ → String → Callback S
  unfolding publish_within
  publish = publish_within (λ _ _ w. (err invalid, w))
