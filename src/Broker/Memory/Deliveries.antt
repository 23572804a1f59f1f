-- ===== src/Broker/Memory/Deliveries.antt =====
-- One delivery of the in-memory broker while nobody else touches the job's record.
use queueway.Base.{
  arith, ◌≡◌, ◌∙◌, ◌+◌, ◌∷◌, ◌++◌, [], ok, err, some, true, false, refl, length, length-append,
  Error, Exec, Result, ◌>>◌, String, ℕ,
}
use queueway.Store.Contract.{IStore, IsStore}
use queueway.Retry.{get_retry_delay, should_retry, RetryManager}
use queueway.Types.{Job, JobStatus, patch, pending, processing, retrying, completed, failed}
use queueway.Engine.World.{World, job_exists, set_status}
use queueway.Engine.Delivery.{Handler, call, failed_once, handle_retry, move_to_dlq}
use queueway.Engine.Delivery.Outcomes.{job_exists_lem, marked, marked_lem, set_status_eq}
use queueway.Broker.Memory.{Callback, deliver_shared, fail_shared, requeue_shared, settle_shared}

module _ {S : Type 0} {store : IStore S} (law : IsStore store) where
  open law use {find, online}

  -- The store can be reached, has this record of the job, and so many handlers were called.
  abbrev pub Holds : String → Job → ℕ → World S → Type 0
  Holds id r n w = (online w.store ≡ true) × (find w.store id ≡ some r) × (length w.handled ≡ n)

  -- A handler that rejects, or resolves, and leaves the record of the job alone.
  abbrev pub Throws : Handler S → Job → Type 0
  Throws h job =
      (r : Job) (n : ℕ) (w : World S)
      → Holds job.id r n w
      → (e : Error) × ((h job w).0 ≡ err e) × Holds job.id r n (h job w).1

  abbrev pub Returns : Handler S → Job → Type 0
  Returns h job =
      (r : Job) (n : ℕ) (w : World S)
      → Holds job.id r n w
      → ((h job w).0 ≡ ok tt) × Holds job.id r n (h job w).1

  -- During a wait nobody touches a record or calls a handler.
  abbrev pub Rests : (ℕ → World S → World S) → Type 0
  Rests sleep =
      (d : ℕ) (id : String) (r : Job) (n : ℕ) (w : World S)
      → Holds id r n w
      → Holds id r n (sleep d w)

  marks :
      (id : String) (st : JobStatus) (a : ℕ) {r : Job} {n : ℕ} (w : World S)
      → Holds id r n w
      → Holds id (patch st (some a) r) n (marked law id st a w)
  marks id st a w (o, f, h) =
      let (o', f', _, _, h', _) = marked_lem law id st a w o in (o', f' ∙ rw f refl, rw h' h)

  exists :
      (id : String) {r : Job} {n : ℕ} (w : World S) → Holds id r n w → job_exists store w id ≡ true
  exists id w (o, f, _) = job_exists_lem law w id o ∙ rw f refl

  called :
      (job : Job) {r : Job} {n : ℕ} (w : World S)
      → Holds job.id r n w
      → Holds job.id r (n + 1) (record w { handled = w.handled ++ job ∷ [] })
  called job w (o, f, h) = (o, f, omega (arith, length-append w.handled (job ∷ [])))

  module _ (retry : RetryManager) (sleep : ℕ → World S → World S) (rests : Rests sleep)
      (publish : String → Callback S) (event : String) (handler : Handler S) (job : Job) (r : Job)
      (n : ℕ) (w : World S) (now : Holds job.id r n w) where
    abbrev delivery : Exec (World S) Job
    delivery = deliver_shared store retry sleep publish event handler job

    -- Where the handler starts.
    abbrev begun : World S
    begun = record (marked law job.id processing job.attempts w) {
      handled = (marked law job.id processing job.attempts w).handled ++ job ∷ [];
    }

    begun-Holds : Holds job.id (patch processing (some job.attempts) r) (n + 1) begun
    begun-Holds =
        called job (marked law job.id processing job.attempts w)
          (marks job.id processing job.attempts w now)

    abbrev outcome : (ok_or_not : Result (Unit {0})) → Exec (World S) Job
    outcome = settle_shared store retry sleep publish event job

    delivery_runs :
        let ran =
          (do call handler job; set_status store job.id completed job.attempts)
            (marked law job.id processing job.attempts w) in
        delivery w ≡ outcome ran.0 ran.1
    unfolding deliver_shared
    delivery_runs =
        rw (exists job.id w now)
          (rw (set_status_eq law job.id processing job.attempts w now.0) refl)

    pub delivery-Returns :
        Returns handler job
        → (w' : World S) × (delivery w ≡ (ok job, w'))
          × Holds job.id (patch completed (some job.attempts) r) (n + 1) w'
    delivery-Returns h =
        let (fine, then_) = h _ _ begun begun-Holds in
        let w₁ = (handler job begun).1 in
        (
          marked law job.id completed job.attempts w₁,
          delivery_runs
              ∙ rw fine (rw (set_status_eq law job.id completed job.attempts w₁ then_.0) refl),
          marks job.id completed job.attempts w₁ then_,
        )

    module _ (h : Throws handler job) where
      -- The handler has thrown.
      abbrev thrown_world : World S
      thrown_world = (handler job begun).1

      thrown-Holds : Holds job.id (patch processing (some job.attempts) r) (n + 1) thrown_world
      thrown-Holds = (h _ _ begun begun-Holds).2

      delivery_fails :
          delivery w ≡ fail_shared store retry sleep publish event (failed_once job) thrown_world
      delivery_fails = let (e, threw, _) = h _ _ begun begun-Holds in delivery_runs ∙ rw threw refl

      pub delivery_gives_up :
          should_retry retry (failed_once job) ≡ false
          → (w' : World S) × (delivery w ≡ (ok (failed_once job), w'))
            × Holds job.id (patch failed (some (job.attempts + 1)) r) (n + 1) w'
      unfolding fail_shared move_to_dlq
      delivery_gives_up t = (
        marked law job.id failed (job.attempts + 1) thrown_world,
        delivery_fails
            ∙ rw (t, exists job.id thrown_world thrown-Holds)
                (rw (set_status_eq law job.id failed (job.attempts + 1) thrown_world thrown-Holds.0)
                  refl),
        marks job.id failed (job.attempts + 1) thrown_world thrown-Holds,
      )

      -- The backoff is over.
      abbrev rested : World S
      rested =
          sleep (get_retry_delay retry (job.attempts + 1))
            (marked law job.id retrying (job.attempts + 1) thrown_world)

      rested-Holds : Holds job.id (patch retrying (some (job.attempts + 1)) r) (n + 1) rested
      rested-Holds =
          rests _ _ _ _ _ (marks job.id retrying (job.attempts + 1) thrown_world thrown-Holds)

      pub delivery_goes_on :
          should_retry retry (failed_once job) ≡ true
          → (w' : World S) × (delivery w ≡ publish event (failed_once job) w')
            × Holds job.id (patch pending (some (job.attempts + 1)) r) (n + 1) w'
      unfolding fail_shared handle_retry requeue_shared
      delivery_goes_on t = (
        marked law job.id pending (job.attempts + 1) rested,
        delivery_fails
            ∙ rw
                (
                  t,
                  set_status_eq law job.id retrying (job.attempts + 1) thrown_world thrown-Holds.0,
                )
                (rw (t, exists job.id rested rested-Holds)
                  (rw (set_status_eq law job.id pending (job.attempts + 1) rested rested-Holds.0)
                    refl)),
        marks job.id pending (job.attempts + 1) rested rested-Holds,
      )
