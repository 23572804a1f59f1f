-- ===== src/Engine/Delivery/Waiting.antt =====
-- Queueway.ts: the two ways of waiting for a retry, inside the delivery and with a timer.
use mathlib.Core.Option
use queueway.Base.{
  ◌∙◌, ◌∷◌, ◌++◌, ◌+◌, ◌≡◌, [], ap, sym, length, some, true, false, ok, err, refl, Error, List,
  String, ℕ,
}
use queueway.Types.{Job, patch, processing, retrying}
use queueway.Store.Contract.{IStore, IsStore}
use queueway.Retry.{RetryManager, get_retry_delay, should_retry}
use queueway.Engine.World.{BrokerTraits, RetryTimer, World}
use queueway.Engine.Delivery.{
  Handler, call, deliver, drop_timer, failed_once, fire_timer, requeue, schedule_retry, timer_at,
}
use queueway.Engine.Delivery.Outcomes.{marked, marked_lem}
use queueway.Engine.Delivery.Paths.{Runs, deliver_fails}
use queueway.Engine.Delivery.Failures.{inline_retry, scheduled}

timer_at-last :
    (ts : List RetryTimer) (t : RetryTimer) → timer_at (length ts) (ts ++ t ∷ []) ≡ some t
timer_at-last [] t = refl
timer_at-last (x ∷ ts) t = timer_at-last ts t

drop-last : (ts : List RetryTimer) (t : RetryTimer) → drop_timer (length ts) (ts ++ t ∷ []) ≡ ts
drop-last [] t = refl
drop-last (x ∷ ts) t = ap (◌∷◌ x) (drop-last ts t)

fire-last :
    {S : Type 0} (store : IStore S) (publish : String → Handler S) (ts : List RetryTimer)
    (t : RetryTimer) (w : World S)
    → fire_timer store publish (length ts) (record w { timers = ts ++ t ∷ [] })
      ≡ (requeue store publish t.event_name t.job (record w { timers = ts })).1
unfolding fire_timer
fire-last store publish ts t w = rw (timer_at-last ts t, fire_timer) (rw (drop-last ts t) refl)

module _ {S : Type 0} {store : IStore S} (law : IsStore store) (retry : RetryManager)
    (sleep : ℕ → World S → World S) (publish : String → Handler S) (event : String)
    (handler : Handler S) (job : Job) (w w' : World S) (e : Error) where
  open law use {find, online}

  abbrev wait : World S → World S
  wait w = sleep (get_retry_delay retry (job.attempts + 1)) w

  abbrev pub timer : RetryTimer
  timer = record {
    event_name = event;
    job = failed_once job;
    delay = get_retry_delay retry (job.attempts + 1);
  }

  -- What others do during a wait neither depends on the timers nor changes them.
  abbrev pub Unaware : Type 0
  Unaware =
      (d : ℕ) (ts : List RetryTimer) (w : World S)
      → sleep d (record w { timers = ts }) ≡ record (sleep d w) { timers = ts }

  fires_last :
      (m : World S)
      → Unaware
      → m.timers ≡ w'.timers
      → fire_timer store publish
          (length w'.timers)
          (wait (record m { timers = w'.timers ++ timer ∷ [] }))
        ≡ (requeue store publish event (failed_once job) (wait m)).1
  fires_last m unaware same =
      let kept : record (wait m) { timers = w'.timers } ≡ wait m =
        sym (unaware (get_retry_delay retry (job.attempts + 1)) w'.timers m)
        ∙ ap (λ ts. wait (record m { timers = ts })) (sym same) in
      ap (fire_timer store publish (length w'.timers))
        (unaware (get_retry_delay retry (job.attempts + 1)) (w'.timers ++ timer ∷ []) m)
      ∙ fire-last store publish w'.timers timer (wait m)
      ∙ ap (λ v. (requeue store publish event (failed_once job) v).1) kept

  -- When a handler throws below the retry limit, a broker that holds deliveries open gets its
  -- delivery back at once, with the record, if there still is one, retrying with one more attempt,
  -- nothing published since the handler, and a timer for the job with its backoff behind the other
  -- timers; and firing that timer after its backoff leaves the same world as the whole delivery does
  -- with a broker for which the engine waits inside it. The store is reachable before and after the
  -- handler, the job is run with either broker, and what others do during the wait neither depends
  -- on the timers nor changes them.
  pub timer_follows_inline :
      (held inline : BrokerTraits)
      → Runs law held retry sleep publish event handler job w
      → Runs law inline retry sleep publish event handler job w
      → held.acknowledges_delivery ≡ true
      → inline.acknowledges_delivery ≡ false
      → call handler job (marked law job.id processing job.attempts w) ≡ (err e, w')
      → online w'.store ≡ true
      → should_retry retry (failed_once job) ≡ true
      → Unaware
      → let (answer, after) = deliver store held retry sleep publish event handler job w in
        (answer ≡ ok tt)
        × (after.sent ≡ w'.sent)
        × (find after.store job.id
            ≡ Option.map (patch retrying (some (job.attempts + 1))) (find w'.store job.id))
        × (timer_at (length w'.timers) after.timers ≡ some timer)
        × (fire_timer store publish (length w'.timers) (wait after)
            ≡ (deliver store inline retry sleep publish event handler job w).1)
  unfolding schedule_retry
  timer_follows_inline held inline runs runs' h i threw up t unaware =
      let (_, f, s, ts, _, _) = marked_lem law job.id retrying (job.attempts + 1) w' up in
      let m = marked law job.id retrying (job.attempts + 1) w' in
      rw
        (
          deliver_fails law held retry sleep publish event handler job w w' e runs threw,
          deliver_fails law inline retry sleep publish event handler job w w' e runs' threw,
        )
        (rw
          (
            scheduled law held retry sleep publish event (failed_once job) w' up t h,
            inline_retry law inline retry sleep publish event (failed_once job) w' up t i,
          )
          (refl, s, f, rw ts (timer_at-last w'.timers timer), rw ts (fires_last m unaware ts)))
