-- ===== src/Engine/Delivery/Failures.antt =====
-- What a delivery of Queueway.ts does after its handler threw: retry, schedule a retry, or give up.
use queueway.Base.{◌+◌, ◌∙◌, err, ok, false, none, some, true, ◌≡◌, Error, String, ℕ, refl}
use queueway.Store.Contract.{IsStore, IStore}
use queueway.Engine.World.{World, BrokerTraits}
use queueway.Retry.{should_retry, get_retry_delay, RetryManager}
use queueway.Engine.Delivery.{
  move_to_dlq, schedule_retry, deliver, failed_once, call, handle_retry, requeue, on_failure,
  Handler,
}
use queueway.Types.{failed, patch, pending, retrying, Job}
use queueway.Engine.Delivery.Outcomes.{marked_lem, job_exists_lem, set_status_eq, marked}
use queueway.Engine.Delivery.Paths.{deliver_fails, started, Runs}

module _ {S : Type 0} {store : IStore S} (law : IsStore store) (traits : BrokerTraits)
    (retry : RetryManager) (sleep : ℕ → World S → World S) (publish : String → Handler S)
    (event : String) where
  open law use {find, online}

  -- The world after a backoff that began in `w`.
  abbrev pub rested : Job → World S → World S
  rested job w =
      sleep (get_retry_delay retry job.attempts) (marked law job.id retrying job.attempts w)

  -- After a backoff a job that was not deleted meanwhile is pending and published again.
  pub requeue_publishes :
      (job : Job) (w : World S) {r : Job}
      → online w.store ≡ true
      → find w.store job.id ≡ some r
      → (requeue store publish event job w
          ≡ publish event job (marked law job.id pending job.attempts w))
        × (find (marked law job.id pending job.attempts w).store job.id
            ≡ some (patch pending (some job.attempts) r))
  unfolding requeue
  requeue_publishes job w o e =
      let (_, f, _, _, _, _) = marked_lem law job.id pending job.attempts w o in
      (
        rw (job_exists_lem law w job.id o, e)
            (rw (set_status_eq law job.id pending job.attempts w o) refl),
        f ∙ rw e refl,
      )

  requeue_drops :
      (job : Job) (w : World S)
      → online w.store ≡ true
      → find w.store job.id ≡ none
      → requeue store publish event job w ≡ (ok tt, w)
  unfolding requeue
  requeue_drops job w o e = rw (job_exists_lem law w job.id o, e) refl

  pub inline_retry :
      (job : Job) (w : World S)
      → online w.store ≡ true
      → should_retry retry job ≡ true
      → traits.acknowledges_delivery ≡ false
      → on_failure store traits retry sleep publish event job w
        ≡ requeue store publish event job (rested job w)
  unfolding on_failure handle_retry
  inline_retry job w o t a =
      rw (t, set_status_eq law job.id retrying job.attempts w o) (rw (a, t) refl)

  pub scheduled :
      (job : Job) (w : World S)
      → online w.store ≡ true
      → should_retry retry job ≡ true
      → traits.acknowledges_delivery ≡ true
      → on_failure store traits retry sleep publish event job w
        ≡ schedule_retry store traits retry sleep publish event job
            (marked law job.id retrying job.attempts w)
  unfolding on_failure
  scheduled job w o t a = rw (t, set_status_eq law job.id retrying job.attempts w o) (rw a refl)

  pub dead_letter :
      (job : Job) (w : World S) {r : Job}
      → online w.store ≡ true
      → should_retry retry job ≡ false
      → find w.store job.id ≡ some r
      → on_failure store traits retry sleep publish event job w
        ≡ (ok tt, marked law job.id failed job.attempts w)
  unfolding on_failure move_to_dlq
  dead_letter job w o t e =
      rw (t, job_exists_lem law w job.id o, e) (set_status_eq law job.id failed job.attempts w o)

  module _ (handler : Handler S) (job : Job) (w w' : World S) (e : Error)
      (runs : Runs law traits retry sleep publish event handler job w)
      (threw : call handler job (started law traits retry sleep publish event handler job w)
        ≡ (err e, w'))
      (reachable : online w'.store ≡ true) where
    -- If the job was deleted when its backoff is over, the delivery ends with the world as the
    -- backoff left it: nothing is written or published.
    deliver_stops_after_deletion :
        should_retry retry (failed_once job) ≡ true
        → traits.acknowledges_delivery ≡ false
        → online (rested (failed_once job) w').store ≡ true
        → find (rested (failed_once job) w').store job.id ≡ none
        → deliver store traits retry sleep publish event handler job w
          ≡ (ok tt, rested (failed_once job) w')
    deliver_stops_after_deletion t a o f =
        deliver_fails law traits retry sleep publish event handler job w w' e runs threw
        ∙ inline_retry (failed_once job) w' reachable t a
        ∙ requeue_drops (failed_once job) (rested (failed_once job) w') o f

    -- When a handler throws at the retry limit and the job is still recorded, its record becomes
    -- failed with the attempts counted, and the delivery publishes nothing and sets no timer.
    deliver_dead_letters :
        {r : Job}
        → should_retry retry (failed_once job) ≡ false
        → find w'.store job.id ≡ some r
        → let after = deliver store traits retry sleep publish event handler job w in
          (after.0 ≡ ok tt)
          × (find after.1.store job.id ≡ some (patch failed (some (job.attempts + 1)) r))
          × (after.1.sent ≡ w'.sent)
          × (after.1.timers ≡ w'.timers)
    deliver_dead_letters t f =
        let (_, g, s, ts, _, _) = marked_lem law job.id failed (job.attempts + 1) w' reachable in
        rw (deliver_fails law traits retry sleep publish event handler job w w' e runs threw)
          (rw (dead_letter (failed_once job) w' reachable t f) (refl, g ∙ rw f refl, s, ts))
