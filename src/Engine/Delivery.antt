-- ===== src/Engine/Delivery.antt =====
-- The callback that `subscribe` of Queueway.ts hands to the broker. `publish` is the broker's own,
-- `sleep` is what the rest of the system does during a wait, and a handler is the user's: it may
-- change the world and may throw.
pub mod Outcomes
pub mod Paths
pub mod Failures
pub mod Waiting
use queueway.Base.{
  some, none, Option, attempt, List, ◌>>=◌, ◌>>◌, zero, suc, ◌&&◌, err, ok, Result, not, ℕ, [],
  if◌then◌else◌, ◌∷◌, String, Exec, ◌+◌, ◌++◌,
}
use queueway.Store.Contract.{IStore}
use queueway.Types.{completed, pending, processing, retrying, failed, Job}
use queueway.Engine.World.{
  already_finished, job_exists, World, RetryTimer, BrokerTraits, set_status,
}
use queueway.Retry.{get_retry_delay, should_retry, RetryManager}

abbrev pub Handler : Type 0 → Type 0
Handler S = Job → Exec (World S) (Unit {0})

-- The user's handler is called with the job.
abbrev pub call : {S : Type 0} → Handler S → Handler S
call handler job w = handler job (record w { handled = w.handled ++ job ∷ [] })

abbrev pub failed_once : Job → Job
failed_once job = record job { attempts = job.attempts + 1 }

module _ {S : Type 0} (store : IStore S) where
  -- packages/core/src/dlq/DLQManager.ts: `moveToDLQ`
  unfoldable pub move_to_dlq : Handler S
  move_to_dlq job = set_status store job.id failed job.attempts

  -- What a worker does after a backoff: unless the job was deleted, it is pending and published
  -- again. The inline path and the timer of `scheduleRetry` take the same steps.
  unfoldable pub requeue : (String → Handler S) → String → Handler S
  requeue publish event job w =
      if job_exists store w job.id
      then (do set_status store job.id pending job.attempts; publish event job) w
      else (ok tt, w)

-- `handleRetry`
unfoldable pub handle_retry : {S : Type 0} → RetryManager → (ℕ → World S → World S) → Handler S
handle_retry retry sleep job w =
    (ok tt, if should_retry retry job then sleep (get_retry_delay retry job.attempts) w else w)

module _ {S : Type 0} (store : IStore S) (traits : BrokerTraits) (retry : RetryManager)
    (sleep : ℕ → World S → World S) (publish : String → Handler S) where
  -- `scheduleRetry`: the timer is set, and the delivery is over.
  unfoldable pub schedule_retry : String → Handler S
  schedule_retry event job w = (
    ok tt,
    record w {
      timers =
          w.timers
          ++ record { event_name = event; job = job; delay = get_retry_delay retry job.attempts }
            ∷ [];
    },
  )

  -- The `catch` block, on a job whose attempts are already counted up.
  unfoldable pub on_failure : String → Handler S
  on_failure event job w =
      if should_retry retry job
      then (do
        set_status store job.id retrying job.attempts
        if traits.acknowledges_delivery
            then schedule_retry event job
            else (do handle_retry retry sleep job; requeue store publish event job))
          w
      else if job_exists store w job.id
      then move_to_dlq store job w
      else (ok tt, w)

  -- What follows the `try` block.
  abbrev pub settle : String → Job → Result (Unit {0}) → Exec (World S) (Unit {0})
  settle event job (ok _) w = (ok tt, w)
  settle event job (err _) w = on_failure event (failed_once job) w

  unfoldable pub deliver : String → Handler S → Handler S
  deliver event handler job w =
      if not (job_exists store w job.id)
      then (ok tt, w)
      else if traits.guarantees_redelivery && already_finished store w job.id
      then (ok tt, w)
      else (do
        set_status store job.id processing job.attempts
        r ← attempt (do call handler job; set_status store job.id completed job.attempts)
        settle event job r)
          w

abbrev pub timer_at : ℕ → List RetryTimer → Option RetryTimer
timer_at i [] = none
timer_at zero (t ∷ ts) = some t
timer_at (suc i) (t ∷ ts) = timer_at i ts

-- `this.retryTimers.delete(timer)`
abbrev pub drop_timer : ℕ → List RetryTimer → List RetryTimer
drop_timer i [] = []
drop_timer zero (t ∷ ts) = ts
drop_timer (suc i) (t ∷ ts) = t ∷ drop_timer i ts

-- The callback of the timer at a place in `retryTimers`: whatever goes wrong is logged.
unfoldable pub fire_timer : {S : Type 0} → IStore S → (String → Handler S) → ℕ → World S → World S
fire_timer store publish i w = elim (timer_at i w.timers) [
  | none ↦ w
  | some t ↦
      (requeue store publish t.event_name t.job (record w { timers = drop_timer i w.timers })).1
]
