-- ===== src/Engine/Api.antt =====
-- The operations of Queueway.ts that its users and the HTTP API call, and recovery. `publish` is the
-- broker's; a new job's id (`randomUUID`) and time are arguments.
pub mod Laws
pub mod Outage
use queueway.Base.{
  pure, ◌>>◌, if◌then◌else◌, not_found, continue, some, err, Option, length, Exec, ◌∷◌, ok, String,
  none, ◌+◌, [], ℕ, List, Result,
}
use queueway.Types.{patch, or_else, pending, Job, JobStatus}
use queueway.Store.Contract.{IStore}
use queueway.Engine.World.{set_status, recover_options, with_store, BrokerTraits, World}
use queueway.Engine.Delivery.{Handler}

abbrev pub new_job : (id : String) (now : ℕ) (event payload : String) → Job
new_job id now event payload = record {
  id = id;
  event_name = event;
  payload = payload;
  status = pending;
  attempts = 0;
  created_at = now;
}

-- `for (const job of recovered) await this.broker.publish(job.eventName, job)`
unfoldable pub publish_all :
    {S : Type 0} → (String → Handler S) → List Job → Exec (World S) (Unit {0})
publish_all publish [] w = (ok tt, w)
publish_all publish (job ∷ jobs) w =
    continue (publish job.event_name job w).0 (λ _. publish_all publish jobs)
      (publish job.event_name job w).1

abbrev pub found_or_fail :
    {S : Type 0}
    → Result (Option Job)
    → (Job → Exec (World S) (Unit {0}))
    → Exec (World S) (Unit {0})
found_or_fail (ok none) f w = (err not_found, w)
found_or_fail (ok (some job)) f w = f job w
found_or_fail (err e) f w = (err e, w)

module _ {S : Type 0} (store : IStore S) where
  unfoldable pub delete_job : String → Exec (World S) (Unit {0})
  delete_job id w =
      found_or_fail (store.get_job w.store id) (λ job w. with_store w (store.delete_job w.store id))
        w

  unfoldable pub get_job : String → World S → Result (Option Job)
  get_job id w = store.get_job w.store id

  unfoldable pub get_jobs : Option String → Option ℕ → World S → Result (List Job)
  get_jobs status limit w = store.get_all_jobs w.store status limit

  -- `getFailedJobs(limit = 50)`
  unfoldable pub get_dlq : Option ℕ → World S → Result (List Job)
  get_dlq limit w = store.get_all_jobs w.store (some "failed") (some (or_else limit 50))

module _ {S : Type 0} (store : IStore S) (publish : String → Handler S) where
  unfoldable pub publish_job :
      (id : String) (now : ℕ) (event payload : String) → Exec (World S) String
  publish_job id now event payload w =
      (do
        (λ w. with_store w (store.save_job w.store (new_job id now event payload)))
        publish event (new_job id now event payload)
        pure id)
        w

  abbrev republish : World S → Result (List Job × S) → Result (Unit {0}) × World S
  republish w (ok (jobs, s)) = publish_all publish jobs (record w { store = s })
  republish w (err e) = (err e, w)

  -- The recovery of `start`.
  unfoldable pub recover_and_publish : BrokerTraits → Exec (World S) (Unit {0})
  recover_and_publish traits w =
      republish w (store.recover_stuck_jobs w.store (recover_options traits))

  -- One round of the recovery watcher, which runs only where the store tracks ownership, and which
  -- goes on after any failure.
  unfoldable pub watch_once : BrokerTraits → World S → World S
  watch_once traits w = if store.tracks_job_ownership then (recover_and_publish traits w).1 else w

  -- `retryFromDLQ`, then the broker gets the job as new.
  unfoldable pub retry_job : String → Exec (World S) (Unit {0})
  retry_job id w =
      found_or_fail (store.get_job w.store id)
        (λ job. do
          set_status store id pending 0
          publish job.event_name (patch pending (some 0) job))
        w

-- `stop` clears the retry timers.
unfoldable pub stop : {S : Type 0} → World S → World S
stop w = record w { timers = [] }

pub record Counts : Type 0 where
  pub pending : ℕ
  pub processing : ℕ
  pub completed : ℕ
  pub failed : ℕ
  pub retrying : ℕ
  pub archived : ℕ

abbrev pub no_counts : Counts
no_counts = record {
  pending = 0;
  processing = 0;
  completed = 0;
  failed = 0;
  retrying = 0;
  archived = 0;
}

-- `counts[job.status] += 1`
abbrev pub count_up : JobStatus → Counts → Counts
count_up JobStatus.pending c = record c { pending = c.pending + 1 }
count_up JobStatus.processing c = record c { processing = c.processing + 1 }
count_up JobStatus.completed c = record c { completed = c.completed + 1 }
count_up JobStatus.failed c = record c { failed = c.failed + 1 }
count_up JobStatus.retrying c = record c { retrying = c.retrying + 1 }
count_up JobStatus.archived c = record c { archived = c.archived + 1 }

unfoldable pub count_jobs : Counts → List Job → Counts
count_jobs c [] = c
count_jobs c (job ∷ jobs) = count_jobs (count_up job.status c) jobs

pub record Stats : Type 0 where
  pub jobs : Counts
  pub total : ℕ

abbrev stats_of : Result (List Job) → Result Stats
stats_of (ok all) = ok (record { jobs = count_jobs no_counts all; total = length all })
stats_of (err e) = err e

unfoldable pub get_stats : {S : Type 0} → IStore S → World S → Result Stats
get_stats store w = stats_of (store.get_all_jobs w.store none none)
