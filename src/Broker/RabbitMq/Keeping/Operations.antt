-- ===== src/Broker/RabbitMq/Keeping/Operations.antt =====
-- The operations of Queueway.ts on RabbitMQ keep every waiting job in a queue.
use queueway.Base.{
  arith, ◌≡◌, ◌==◌, ◌∷◌, [], eq_refl, eq_iff, none, some, true, err, not_found, refl, inl, inr,
  Bool-cases, Option-cases, String, ℕ, if◌then◌else◌,
}
use queueway.Types.{Job, patch, pending}
use queueway.Store.Contract.{IStore, IsStore}
use queueway.Engine.World.{World, enqueue, enqueue_lem}
use queueway.Engine.Delivery.{fire_timer, drop_timer, requeue, timer_at}
use queueway.Engine.Api.{delete_job, new_job, publish_job, retry_job}
use queueway.Engine.Api.Laws.{delete_job_lem, retry_job_lem}
use queueway.Engine.Delivery.Outcomes.{job_exists_lem, marked, set_status_eq}
use queueway.Broker.RabbitMq.Worker.{put_back}
use queueway.Broker.RabbitMq.Keeping.{IsSound, marked-IsSound, nobody, waits-append, waits-last}
use queueway.Broker.RabbitMq.Keeping.Deliveries.{framed, only}

module _ {S : Type 0} {store : IStore S} (law : IsStore store) where
  open law use {find, online}

  pub put_back-IsSound :
      (event : String) (job : Job) (w : World S)
      → IsSound law (only job.id) w
      → IsSound law nobody (put_back (event, job) w)
  put_back-IsSound event job w s = record {
    up = s.up;
    accepts = s.accepts;
    keyed = s.keyed;
    queued = λ j r e o. elim (Bool-cases (job.id == j)) [
      | inl same ↦ rw (← (eq_iff job.id j).0 same) (ground (arith, waits-last event job w.sent))
      | inr other ↦
          ground (arith, waits-append j w.sent ((event, job) ∷ []), s.queued j r e o, other)
    ];
  }

  pub loosened : (id : String) (w : World S) → IsSound law nobody w → IsSound law (only id) w
  loosened id w s = record {
    up = s.up;
    accepts = s.accepts;
    keyed = s.keyed;
    queued = λ j r e o. ground (arith, s.queued j r e o);
  }

  -- A job is made pending and handed to the broker.
  requeued-IsSound :
      (event : String) (job : Job) (n : ℕ) (w : World S)
      → IsSound law nobody w
      → IsSound law nobody (put_back (event, job) (marked law job.id pending n w))
  requeued-IsSound event job n w s = put_back-IsSound event job (marked law job.id pending n w) (
      marked-IsSound law nobody (only job.id) job.id pending n w s (λ j _ o. cc)
        (λ _. eq_refl job.id))

  marked-accepts :
      (id : String) (n : ℕ) (w : World S)
      → IsSound law nobody w
      → (marked law id pending n w).accepting ≡ true
  marked-accepts id n w s =
      (marked-IsSound law nobody (only id) id pending n w s (λ j _ o. cc) (λ _. eq_refl id)).accepts

  -- A new record, whose message is not in a queue yet.
  saved-IsSound :
      (job : Job) (w : World S) (st : S)
      → online st ≡ true
      → ((j : String)
          → find st j ≡ (if job.id == j then some (law.stored w.store job) else find w.store j))
      → IsSound law nobody w
      → IsSound law (only job.id) (record w { store = st })
  saved-IsSound job w st o f s = record {
    up = o;
    accepts = s.accepts;
    keyed = λ j r e. elim (Bool-cases (job.id == j)) [
      | inl same ↦
          ground (arith, f j, e, same, law.stored_keeps w.store job, (eq_iff job.id j).0 same)
      | inr other ↦ s.keyed j r (ground (arith, f j, e, other))
    ];
    queued = λ j r e h. elim (Bool-cases (job.id == j)) [
      | inl same ↦ ground (arith, same)
      | inr other ↦ ground (arith, other, s.queued j r (ground (arith, f j, e, other)) h)
    ];
  }

  pub publishes-IsSound :
      (id : String) (now : ℕ) (event payload : String) (w : World S)
      → find w.store id ≡ none
      → IsSound law nobody w
      → IsSound law nobody (publish_job store enqueue id now event payload w).1
  unfolding publish_job
  publishes-IsSound id now event payload w fresh s =
      let job = new_job id now event payload in
      elim (Bool-cases (law.accepts w.store job)) [
        | inl fits ↦
            let (st, e, o, f) = law.save w.store job s.up fresh fits in
            rw e (
              rw (enqueue_lem event job (record w { store = st }) s.accepts) (
                put_back-IsSound event job (record w { store = st })
                  (saved-IsSound job w st o f s)))
        | inr refused ↦ rw (law.save_refused w.store job s.up refused) s
      ]

  pub requeue-IsSound :
      (event : String) (job : Job) (w : World S)
      → IsSound law nobody w
      → IsSound law nobody (requeue store enqueue event job w).1
  unfolding requeue
  requeue-IsSound event job w s = elim (Option-cases (find w.store job.id)) [
    | inl gone ↦ rw (job_exists_lem law w job.id s.up, gone) s
    | inr (r, found) ↦
        rw (job_exists_lem law w job.id s.up, found)
          (rw (set_status_eq law job.id pending job.attempts w s.up) (
            rw
              (enqueue_lem event job (marked law job.id pending job.attempts w)
                (marked-accepts job.id job.attempts w s))
              (requeued-IsSound event job job.attempts w s)))
  ]

  pub fires-IsSound :
      (i : ℕ) (w : World S)
      → IsSound law nobody w
      → IsSound law nobody (fire_timer store enqueue i w)
  unfolding fire_timer
  fires-IsSound i w s = elim (Option-cases (timer_at i w.timers)) [
    | inl nothing ↦ rw (nothing, fire_timer) s
    | inr (t, set) ↦
        rw (set, fire_timer)
          (requeue-IsSound t.event_name t.job (record w { timers = drop_timer i w.timers })
            (framed law w (drop_timer i w.timers) w.handled s))
  ]

  absent_delete :
      (id : String) (w : World S)
      → IsSound law nobody w
      → find w.store id ≡ none
      → delete_job store id w ≡ (err not_found, w)
  unfolding delete_job
  absent_delete id w s gone = rw (law.get w.store id, s.up, gone) refl

  remains :
      (id : String) (w : World S) (st : S)
      → ((j : String) → find st j ≡ (if id == j then none else find w.store j))
      → (j : String) (r : Job) → find st j ≡ some r
      → find w.store j ≡ some r
  remains id w st f j r e = ground (arith, f j, e)

  pub deletes-IsSound :
      (id : String) (w : World S)
      → IsSound law nobody w
      → IsSound law nobody (delete_job store id w).1
  deletes-IsSound id w s = elim (Option-cases (find w.store id)) [
    | inl gone ↦ rw (absent_delete id w s gone) s
    | inr (r, found) ↦
        let (st, d, o, f) = delete_job_lem law w id r s.up found in
        rw d (record {
          up = o;
          accepts = s.accepts;
          keyed = λ j r e. s.keyed j r (remains id w st f j r e);
          queued = λ j r e. s.queued j r (remains id w st f j r e);
        })
  ]

  absent_retry :
      (id : String) (w : World S)
      → IsSound law nobody w
      → find w.store id ≡ none
      → retry_job store enqueue id w ≡ (err not_found, w)
  unfolding retry_job
  absent_retry id w s gone = rw (law.get w.store id, s.up, gone) refl

  pub retries-IsSound :
      (id : String) (w : World S)
      → IsSound law nobody w
      → IsSound law nobody (retry_job store enqueue id w).1
  retries-IsSound id w s = elim (Option-cases (find w.store id)) [
    | inl gone ↦ rw (absent_retry id w s gone) s
    | inr (r, found) ↦
        let job = patch pending (some 0) r in
        rw ((retry_job_lem law enqueue w id r s.up found).0) (
          rw (enqueue_lem r.event_name job (marked law id pending 0 w) (marked-accepts id 0 w s))
            (rw (← s.keyed id r found) (requeued-IsSound r.event_name job 0 w s)))
  ]
