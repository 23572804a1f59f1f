-- ===== src/Engine/Api/Laws.antt =====
-- What the operations of Queueway.ts do, over any store that keeps the contract.
use queueway.Base.{
  sym, ap, eq_refl, not_connected, map, ◌∙◌, err, arith, ◌==◌, [], ◌++◌, if◌then◌else◌, some, ok,
  length, ◌≡◌, ◌∷◌, false, none, String, true, ◌+◌, ℕ, List, Bool, refl,
}
use queueway.Engine.Api.{
  no_counts, count_up, pending, Stats, new_job, retry_job, publish_job, delete_job, Counts,
  get_stats, recover_and_publish, publish_all, count_jobs,
}
use queueway.Types.{patch, Job, JobStatus}
use queueway.Store.Contract.{IsStore, IStore}
use queueway.Engine.World.{enqueue_lem, recover_options, World, BrokerTraits, enqueue}
use queueway.Retry.{RetryManager}
use queueway.Engine.Delivery.{deliver, Handler}
use queueway.Engine.Delivery.Outcomes.{set_status_eq, marked_lem, marked}
use queueway.Engine.Delivery.Paths.{deliver_skips_deleted}
use mathlib.Core.List.{append_assoc, append-nil}

-- A published job is handed to the broker where it takes messages.
publish_all_lem :
    {S : Type 0} (jobs : List Job) (w : World S)
    → w.accepting ≡ true
    → publish_all enqueue jobs w
      ≡ (ok tt, record w { sent = w.sent ++ map (λ j. (j.event_name, j)) jobs })
unfolding publish_all
publish_all_lem [] w a = ap (λ s. (ok tt, record w { sent = s })) (sym (append-nil w.sent))
publish_all_lem (job ∷ jobs) w a =
    let first : String × Job = (job.event_name, job) in
    rw (enqueue_lem job.event_name job w a) (
      publish_all_lem jobs (record w { sent = w.sent ++ first ∷ [] }) a
      ∙ ap (λ s. (ok tt, record w { sent = s }))
          (append_assoc w.sent (first ∷ []) (map (λ j. (j.event_name, j)) jobs)))

-- When the broker takes messages and the store hands back jobs, the recovery publishes exactly
-- these, in their order and each once, under their own events.
pub recover_publishes :
    {S : Type 0} (store : IStore S) (traits : BrokerTraits) (w : World S) (jobs : List Job) (s : S)
    → w.accepting ≡ true
    → store.recover_stuck_jobs w.store (recover_options traits) ≡ ok (jobs, s)
    → recover_and_publish store enqueue traits w
      ≡ (ok tt, record w { store = s; sent = w.sent ++ map (λ j. (j.event_name, j)) jobs })
unfolding recover_and_publish
recover_publishes store traits w jobs s a e = rw e (publish_all_lem jobs (record w { store = s }) a)

abbrev pub sum_counts : Counts → ℕ
sum_counts c = c.pending + c.processing + c.completed + c.failed + c.retrying + c.archived

-- How often a status occurs.
abbrev pub occurrences : (JobStatus → Bool) → List Job → ℕ
occurrences p [] = 0
occurrences p (job ∷ jobs) = (if p job.status then 1 else 0) + occurrences p jobs

abbrev pub is_failed : JobStatus → Bool
is_failed JobStatus.failed = true
is_failed _ = false

count_up_sum :
    (st : JobStatus) (c : Counts)
    → (sum_counts (count_up st c) ≡ sum_counts c + 1)
      × ((count_up st c).failed ≡ c.failed + (if is_failed st then 1 else 0))
count_up_sum JobStatus.pending c = omega arith
count_up_sum _ c = omega arith

count_jobs_sum :
    (c : Counts) (jobs : List Job)
    → (sum_counts (count_jobs c jobs) ≡ sum_counts c + length jobs)
      × ((count_jobs c jobs).failed ≡ c.failed + occurrences is_failed jobs)
unfolding count_jobs
count_jobs_sum c [] = ground arith
count_jobs_sum c (job ∷ jobs) =
    omega (arith, count_jobs_sum (count_up job.status c) jobs, count_up_sum job.status c)

-- When the store lists its jobs, the statistics are returned, the six counts add up to the total,
-- the total is the number of jobs, and the failed count is the number of failed jobs.
get_stats_adds_up :
    {S : Type 0} (store : IStore S) (w : World S) (all : List Job)
    → store.get_all_jobs w.store none none ≡ ok all
    → (stats : Stats) × (get_stats store w ≡ ok stats)
      × (sum_counts stats.jobs ≡ stats.total)
      × (stats.total ≡ length all)
      × (stats.jobs.failed ≡ occurrences is_failed all)
unfolding get_stats
get_stats_adds_up store w all e =
    let (s, f) = count_jobs_sum no_counts all in
    (
      record { jobs = count_jobs no_counts all; total = length all },
      rw e refl,
      omega (arith, s),
      refl,
      omega (arith, f),
    )

module _ {S : Type 0} {store : IStore S} (law : IsStore store) where
  open law use {find, online}

  -- Publishing under a fresh id, a job that the reachable store takes, saves the new record; the job goes to the
  -- broker if it takes messages, and otherwise the caller gets the error while the record stays.
  publish_job_lem :
      (w : World S) (id : String) (now : ℕ) (event payload : String)
      → online w.store ≡ true
      → find w.store id ≡ none
      → law.accepts w.store (new_job id now event payload) ≡ true
      → let job = new_job id now event payload in
        (s : S) × (find s id ≡ some (law.stored w.store job))
        × (publish_job store enqueue id now event payload w ≡ (
            if w.accepting
            then (ok id, record w { store = s; sent = w.sent ++ (event, job) ∷ [] })
            else (err not_connected, record w { store = s })))
  unfolding publish_job enqueue
  publish_job_lem w id now event payload o fresh fits =
      let job = new_job id now event payload in
      let (s, e, _, f) = law.save w.store job o fresh fits in
      (s, f id ∙ rw (eq_refl id) refl, rw e (ground arith))

  -- Retrying a recorded job with the store reachable makes its record pending with no attempts and
  -- publishes the job in that state under its own event.
  pub retry_job_lem :
      (publish : String → Handler S) (w : World S) (id : String) (r : Job)
      → online w.store ≡ true
      → find w.store id ≡ some r
      → (retry_job store publish id w
          ≡ publish r.event_name (patch pending (some 0) r) (marked law id pending 0 w))
        × (find (marked law id pending 0 w).store id ≡ some (patch pending (some 0) r))
  unfolding retry_job
  retry_job_lem publish w id r o e =
      let (_, f, _, _, _, _) = marked_lem law id pending 0 w o in
      (rw (law.get w.store id, o, e) (rw (set_status_eq law id pending 0 w o) refl), f ∙ rw e refl)

  pub delete_job_lem :
      (w : World S) (id : String) (r : Job)
      → online w.store ≡ true
      → find w.store id ≡ some r
      → (s : S) × (delete_job store id w ≡ (ok tt, record w { store = s }))
        × (online s ≡ true)
        × ((j : String) → find s j ≡ (if id == j then none else find w.store j))
  unfolding delete_job
  delete_job_lem w id r o e =
      let (s, d, o', f) = law.delete w.store id o in
      (s, rw (law.get w.store id, o, e) (rw d refl), o', f)

  -- After deleting a recorded job its record is gone, and the delivery of any copy of it that a
  -- broker still holds does nothing.
  pub deliver-delete_job :
      (traits : BrokerTraits) (retry : RetryManager) (sleep : ℕ → World S → World S)
      (publish : String → Handler S) (event : String) (handler : Handler S) (w : World S)
      (r copy : Job)
      → online w.store ≡ true
      → find w.store copy.id ≡ some r
      → let w' = (delete_job store copy.id w).1 in
        (find w'.store copy.id ≡ none)
        × (deliver store traits retry sleep publish event handler copy w' ≡ (ok tt, w'))
  deliver-delete_job traits retry sleep publish event handler w r copy o e =
      let (s, d, o', f) = delete_job_lem w copy.id r o e in
      let gone : find s copy.id ≡ none = f copy.id ∙ rw (eq_refl copy.id) refl in
      rw d (
        gone,
        deliver_skips_deleted law traits retry sleep publish event handler copy
            (record w { store = s }) o' gone,
      )
