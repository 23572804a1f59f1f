-- ===== src/Store/Memory.antt =====
-- packages/core/src/store/InMemoryStore.ts. The map's keys are the ids of its jobs, so a list of
-- jobs stands for it. A job is a value here: where the source stores the caller's object itself,
-- the engine follows each change of that object by an `updateJob` with the same values.
pub mod Laws
use queueway.Base.{ℕ, String, false, Option, none, some, List, [], Result, ok}
use queueway.Types.{JobStatus, Job, RecoverOptions, ComponentHealth, up, patch}
use queueway.Store.Table.{find, put, without}
use queueway.Store.Listing.{newest_first, of_status, limited}
use queueway.Store.Contract.{IStore}

pub record InMemoryStore : Type 0 where
  pub jobs : List Job

abbrev pub job_key : Job → String
job_key j = j.id

abbrev pub empty : InMemoryStore
empty = record { jobs = [] }

unfoldable pub save_job : InMemoryStore → Job → Result InMemoryStore
save_job s job = ok (record { jobs = put job_key job s.jobs })

unfoldable pub get_job : InMemoryStore → String → Result (Option Job)
get_job s id = ok (find job_key id s.jobs)

unfoldable pub update_job : InMemoryStore → String → JobStatus → Option ℕ → Result InMemoryStore
update_job s id st a = elim (find job_key id s.jobs) [
  | none ↦ ok s
  | some job ↦ ok (record { jobs = put job_key (patch st a job) s.jobs })
]

unfoldable pub get_all_jobs : InMemoryStore → Option String → Option ℕ → Result (List Job)
get_all_jobs s status limit = ok (limited limit (newest_first (of_status status s.jobs)))

unfoldable pub recover_stuck_jobs :
    InMemoryStore → RecoverOptions → Result (List Job × InMemoryStore)
recover_stuck_jobs s options = ok ([], s)

unfoldable pub delete_job : InMemoryStore → String → Result InMemoryStore
delete_job s id = ok (record { jobs = without job_key id s.jobs })

unfoldable pub check_health : InMemoryStore → ComponentHealth
check_health s = record { status = up; kind = none }

abbrev pub in_memory_store : IStore InMemoryStore
in_memory_store = record {
  save_job = save_job;
  get_job = get_job;
  update_job = update_job;
  get_all_jobs = get_all_jobs;
  recover_stuck_jobs = recover_stuck_jobs;
  delete_job = delete_job;
  check_health = check_health;
  tracks_job_ownership = false;
}
