-- ===== src/Broker/RabbitMq/Keeping/Deliveries.antt =====
-- A delivery of RabbitMQBroker.ts and Queueway.ts keeps every waiting job in a queue.
use queueway.Base.{
  arith, ◌≡◌, ◌==◌, eq_refl, eq_iff, none, some, true, false, ok, err, refl, ap, inl, inr,
  Bool-cases, Option-cases, Bool, List, Result, String, ℕ,
}
use queueway.Types.{Job, JobStatus, completed, failed, processing, retrying}
use queueway.Store.Contract.{IStore, IsStore}
use queueway.Retry.{should_retry, RetryManager}
use queueway.Engine.World.{World, RetryTimer, enqueue, is_over}
use queueway.Engine.Delivery.{Handler, call, failed_once, on_failure, schedule_retry}
use queueway.Engine.Delivery.Outcomes.{job_exists_lem, marked}
use queueway.Engine.Delivery.Paths.{
  Runs, started, deliver_completes, deliver_fails, deliver_skips_deleted, deliver_skips_finished,
}
use queueway.Engine.Delivery.Failures.{dead_letter, scheduled}
use queueway.Broker.RabbitMq.Verdicts.{rabbitmq_traits}
use queueway.Broker.RabbitMq.Worker.{callback, message_at, taken_out}
use queueway.Broker.RabbitMq.Keeping.{IsSound, is_open, marked-IsSound, nobody, waits-taken_out}

-- The message of this job alone is out for a delivery.
abbrev pub only : String → String → Bool
only id j = id == j

module _ {S : Type 0} {store : IStore S} (law : IsStore store) where
  open law use {find, online}

  -- A handler may use the engine: what it does keeps every waiting job in a queue.
  abbrev pub Safe : Handler S → Type 0
  Safe handler =
      (out : String → Bool) (job : Job) (w : World S)
      → IsSound law out w
      → IsSound law out (handler job w).1

  pub framed :
      {out : String → Bool} (w : World S) (ts : List RetryTimer) (hs : List Job)
      → IsSound law out w
      → IsSound law out (record w { timers = ts; handled = hs })
  framed w ts hs s = record { up = s.up; accepts = s.accepts; keyed = s.keyed; queued = s.queued }

  pub released :
      (id : String) (w : World S)
      → IsSound law (only id) w
      → ((r : Job) → find w.store id ≡ some r → is_open r.status ≡ false)
      → IsSound law nobody w
  released id w s closed = record {
    up = s.up;
    accepts = s.accepts;
    keyed = s.keyed;
    queued = λ j r e o. ground (arith, s.queued j r e o, eq_iff id j, still j r e o);
  }
    where
      still :
          (j : String) (r : Job)
          → find w.store j ≡ some r
          → is_open r.status ≡ true
          → (id == j) ≡ false
      still j r e o = elim (Bool-cases (id == j)) [
        | inl same ↦
            let own : find w.store id ≡ some r = rw ((eq_iff id j).0 same) e in cc (closed r own, o)
        | inr other ↦ other
      ]

  pub taken_out-IsSound :
      (i : ℕ) (event : String) (job : Job) (w : World S)
      → message_at i w.sent ≡ some (event, job)
      → IsSound law nobody w
      → IsSound law (only job.id) (record w { sent = taken_out i w.sent })
  taken_out-IsSound i event job w m s = record {
    up = s.up;
    accepts = s.accepts;
    keyed = s.keyed;
    queued = λ j r e o. ground (arith, s.queued j r e o, waits-taken_out i w.sent event j job m);
  }

  closes :
      (id : String) (st : JobStatus) (n : ℕ) (w : World S)
      → is_open st ≡ false
      → IsSound law (only id) w
      → IsSound law nobody (marked law id st n w)
  closes id st n w c s =
      marked-IsSound law (only id) nobody id st n w s (λ j other own. cc) (λ o. cc)

  pub begins :
      (id : String) (n : ℕ) (w : World S)
      → IsSound law (only id) w
      → IsSound law (only id) (marked law id processing n w)
  begins id n w s =
      marked-IsSound law (only id) (only id) id processing n w s (λ j _ o. o) (λ _. eq_refl id)

  module _ (retry : RetryManager) (event : String) (handler : Handler S) (safe : Safe handler) where
    -- Below the limit the job is retrying and has a timer; else it is a dead letter, or was deleted.
    fails-IsSound :
        (job : Job) (w : World S)
        → IsSound law (only job.id) w
        → let after = on_failure store rabbitmq_traits retry (λ _ w. w) enqueue event job w in
          (after.0 ≡ ok tt) × IsSound law nobody after.1
    fails-IsSound job w s = elim (Bool-cases (should_retry retry job)) [
      | inl t ↦
          rw (scheduled law rabbitmq_traits retry (λ _ w. w) enqueue event job w s.up t refl) (
            unfold schedule_retry in
            (refl, framed _ _ _ (closes job.id retrying job.attempts w refl s)))
      | inr t ↦ elim (Option-cases (find w.store job.id)) [
        | inl gone ↦ rw (deleted t gone) (refl, released job.id w s (λ r e. cc))
        | inr (r, found) ↦
            rw (dead_letter law rabbitmq_traits retry (λ _ w. w) enqueue event job w s.up t found)
              (refl, closes job.id failed job.attempts w refl s)
      ]
    ]
      where
        deleted :
            should_retry retry job ≡ false
            → find w.store job.id ≡ none
            → on_failure store rabbitmq_traits retry (λ _ w. w) enqueue event job w ≡ (ok tt, w)
        deleted t gone = unfold on_failure in rw (t, job_exists_lem law w job.id s.up, gone) refl

    module _ (job : Job) (w : World S) (s : IsSound law (only job.id) w) where
      -- What the callback of `subscribe` comes to.
      abbrev after : Result (Unit {0}) × World S
      after = callback store retry event handler job w

      over_closed : (r r' : Job) → is_over r.status ≡ true → r ≡ r' → is_open r'.status ≡ false
      over_closed r r' over q = ground (arith, ap (λ (x : Job). x.status) q)

      runs_through :
          Runs law rabbitmq_traits retry (λ _ w. w) enqueue event handler job w
          → (after.0 ≡ ok tt) × IsSound law nobody after.1
      runs_through runs = ended (call handler job begun).0 refl
        where
          begun : World S
          begun = started law rabbitmq_traits retry (λ _ w. w) enqueue event handler job w

          ran : IsSound law (only job.id) (call handler job begun).1
          ran = safe (only job.id) job _ (framed begun _ _ (begins job.id job.attempts w s))

          ended :
              (r : Result (Unit {0}))
              → (call handler job begun).0 ≡ r
              → (after.0 ≡ ok tt) × IsSound law nobody after.1
          ended (ok _) e =
              let (q, _, _, _) =
                deliver_completes law rabbitmq_traits retry (λ _ w. w) enqueue event handler job w
                  (call handler job begun).1 runs (ap (λ x. (x, (call handler job begun).1)) e)
                  ran.up in
              rw q (refl, closes job.id completed job.attempts (call handler job begun).1 refl ran)
          ended (err x) e =
              rw
                (deliver_fails law rabbitmq_traits retry (λ _ w. w) enqueue event handler job w
                  (call handler job begun).1 x runs (ap (λ x. (x, (call handler job begun).1)) e))
                (fails-IsSound (failed_once job) (call handler job begun).1 ran)

      -- Whatever the handler does with the engine, the delivery resolves, and every job that waits
      -- or runs is in a queue, also without this message.
      pub callback-IsSound : (after.0 ≡ ok tt) × IsSound law nobody after.1
      callback-IsSound = elim (Option-cases (find w.store job.id)) [
        | inl gone ↦
            rw
              (deliver_skips_deleted law rabbitmq_traits retry (λ _ w. w) enqueue event handler job
                w s.up gone)
              (refl, released job.id w s (λ r e. cc))
        | inr (r, found) ↦ elim (Bool-cases (is_over r.status)) [
          | inl over ↦
              rw
                (deliver_skips_finished law rabbitmq_traits retry (λ _ w. w) enqueue event handler
                  job w s.up refl found over)
                (refl, released job.id w s (λ r' e. over_closed r r' over (cc (e, found))))
          | inr live ↦ runs_through (r, s.up, found, live)
        ]
      ]
