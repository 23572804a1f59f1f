-- ===== src/Store/Postgres.antt =====
-- packages/core/src/store/PostgreSQLStore.ts: the store that several workers share. The database is
-- one value, `me` the id of the worker whose `PostgreSQLStore` runs the operation, `now` the
-- database's clock in milliseconds. Each operation runs on an unchanging connection state.
pub mod Laws
pub mod Recovery
pub mod Ownership
pub mod Claims
pub mod Heartbeat
pub mod Session
use queueway.Base.{
  ℕ, ◌^◌, ◌+◌, ◌*◌, ◌/◌, String, Bool, true, false, not, ◌&&◌, Option, none, some, List, [], ◌∷◌,
  ◌++◌, map, Result, ok, err, unreachable, duplicate, invalid, chars, leb, includes, keep, length,
  ltb, nat_eq, ◌==◌, if◌then◌else◌,
}
use queueway.Types.{
  JobStatus, pending, status_name, Job, RecoverOptions, or_else, ComponentHealth, up, down, patch,
}
use queueway.Store.Table.{find, rewrite, without}
use queueway.Store.Listing.{newest_first, of_status, limited}
use queueway.Store.Contract.{IStore}

abbrev pub default_stale_after_ms : ℕ
default_stale_after_ms = 30000

-- A row of `queueway_jobs`.
pub record JobRow : Type 0 where
  pub job : Job
  pub worker_id : Option String
  pub locked_at : Option ℕ
  pub updated_at : ℕ

-- A row of `queueway_workers`.
pub record Worker : Type 0 where
  pub id : String
  pub started_at : ℕ
  pub last_seen : ℕ

pub record Database : Type 0 where
  pub online : Bool
  pub now : ℕ
  pub jobs : List JobRow
  pub workers : List Worker
  -- Which texts of a job's data a column of type JSONB takes.
  pub takes_json : String → Bool

abbrev pub row_key : JobRow → String
row_key r = r.job.id

abbrev pub worker_key : Worker → String
worker_key w = w.id

abbrev pub seen : ℕ → Worker → Worker
seen now w = record w { last_seen = now }

-- `INSERT … ON CONFLICT (id) DO UPDATE SET last_seen = NOW()`
unfoldable pub register_worker : String → Database → Result Database
register_worker me db =
    if db.online
    then elim (find worker_key me db.workers) [
      | none ↦ ok (record db {
        workers = db.workers ++ record { id = me; started_at = db.now; last_seen = db.now } ∷ [];
      })
      | some _ ↦ ok (record db { workers = rewrite worker_key me (seen db.now) db.workers })
    ]
    else err unreachable

-- `status IN ('processing', 'retrying')`
abbrev pub in_flight : JobStatus → Bool
in_flight st = includes (status_name st) ("processing" ∷ "retrying" ∷ [])

-- `worker_id = $1`, which a null owner does not pass.
abbrev pub owned_by : String → Option String → Bool
owned_by me none = false
owned_by me (some w) = w == me

abbrev pub relock : String → ℕ → JobRow → JobRow
relock me now r =
    if owned_by me r.worker_id && in_flight r.job.status
    then record r { locked_at = some now }
    else r

-- One heartbeat: two updates, neither of which inserts a row.
unfoldable pub beat : String → Database → Result Database
beat me db =
    if db.online
    then ok (record db {
      workers = rewrite worker_key me (seen db.now) db.workers;
      jobs = map (relock me db.now) db.jobs;
    })
    else err unreachable

-- `created_at` and `updated_at` are left to their defaults, `NOW()`.
abbrev pub new_row : ℕ → Job → JobRow
new_row now job = record {
  job = record job { created_at = now };
  worker_id = none;
  locked_at = none;
  updated_at = now;
}

-- `VARCHAR(255)`: the text has at most that many characters.
abbrev pub fits_column : String → Bool
fits_column text = leb (length (chars text)) 255

-- The columns `id`, `event_name`, `data` and `attempts` take what the job has for them.
unfoldable pub fits_row : Database → Job → Bool
fits_row db job =
    fits_column job.id
    && fits_column job.event_name
    && db.takes_json job.payload
    && ltb job.attempts (2 ^ 31)

unfoldable pub save_job : Database → Job → Result Database
save_job db job =
    if db.online
    then if fits_row db job
      then elim (find row_key job.id db.jobs) [
        | none ↦ ok (record db { jobs = db.jobs ++ new_row db.now job ∷ [] })
        | some _ ↦ err duplicate
      ]
      else err invalid
    else err unreachable

abbrev pub job_of : Option JobRow → Option Job
job_of none = none
job_of (some r) = some r.job

unfoldable pub get_job : Database → String → Result (Option Job)
get_job db id = if db.online then ok (job_of (find row_key id db.jobs)) else err unreachable

-- The row that `updateJob` leaves: a job in flight is owned and locked, any other is released.
abbrev pub update_row : String → ℕ → JobStatus → Option ℕ → JobRow → JobRow
update_row me now st a r = record {
  job = patch st a r.job;
  worker_id = if in_flight st then some me else none;
  locked_at = if in_flight st then some now else none;
  updated_at = now;
}

-- The attempts are below 2^31, the bound of their column.
unfoldable pub update_job : String → Database → String → JobStatus → Option ℕ → Result Database
update_job me db id st a =
    if db.online
    then ok (record db { jobs = rewrite row_key id (update_row me db.now st a) db.jobs })
    else err unreachable

abbrev pub jobs_of : List JobRow → List Job
jobs_of rs = map (λ r. r.job) rs

unfoldable pub get_all_jobs : Database → Option String → Option ℕ → Result (List Job)
get_all_jobs db status limit =
    if db.online
    then ok (limited limit (newest_first (of_status status (jobs_of db.jobs))))
    else err unreachable

-- `Math.ceil(staleAfterMs / 1000)`
abbrev pub stale_seconds : RecoverOptions → ℕ
stale_seconds o = (or_else o.stale_after_ms default_stale_after_ms + 999) / 1000

-- Not `last_seen < NOW() - staleSeconds`.
abbrev pub is_fresh : RecoverOptions → ℕ → Worker → Bool
is_fresh o now w = not (ltb (w.last_seen + stale_seconds o * 1000) now)

-- Step 1: `DELETE FROM queueway_workers WHERE last_seen < …`
unfoldable pub forget_stale : RecoverOptions → Database → List Worker
forget_stale o db = keep (is_fresh o db.now) db.workers

-- Step 2: `SELECT count(*) … WHERE id <> $1` is 0.
unfoldable pub alone_on_the_store : String → List Worker → Bool
alone_on_the_store me workers = nat_eq (length (keep (λ w. not (w.id == me)) workers)) 0

-- `options.includeProcessing === false`, and `options.includePending ?? true`.
abbrev pub is_false : Option Bool → Bool
is_false o = not (or_else o true)

-- Step 3: the statuses that count as stuck, and the rows that may be taken.
unfoldable pub statuses : (include_processing include_pending alone : Bool) → List String
statuses true true true = "processing" ∷ "retrying" ∷ "pending" ∷ []
statuses true _ _ = "processing" ∷ "retrying" ∷ []
statuses false true true = "retrying" ∷ "pending" ∷ []
statuses false _ _ = "retrying" ∷ []

abbrev pub statuses_for : RecoverOptions → Bool → List String
statuses_for o alone =
    statuses (not (is_false o.include_processing)) (or_else o.include_pending true) alone

-- `worker_id IS NULL OR worker_id <> $2`
abbrev pub not_mine : String → Option String → Bool
not_mine me none = true
not_mine me (some w) = not (w == me)

-- `worker_id IS NULL OR worker_id NOT IN (SELECT id FROM queueway_workers)`
abbrev pub owner_gone : List Worker → Option String → Bool
owner_gone workers none = true
owner_gone workers (some w) = elim (find worker_key w workers) [ none ↦ true | some _ ↦ false ]

unfoldable pub may_claim : String → RecoverOptions → List Worker → JobRow → Bool
may_claim me o workers r =
    let alone = alone_on_the_store me workers in
    includes (status_name r.job.status) (statuses_for o alone)
    && (if alone
        then not_mine me r.worker_id
        else owner_gone workers r.worker_id && not_mine me r.worker_id)

abbrev pub as_pending : Job → Job
as_pending job = record job { status = pending }

abbrev pub release_row : ℕ → JobRow → JobRow
release_row now r = record {
  job = as_pending r.job;
  worker_id = none;
  locked_at = none;
  updated_at = now;
}

-- Step 4: one `UPDATE … RETURNING *`, so that claiming is a single step for every other worker.
abbrev pub claim_row : String → RecoverOptions → List Worker → ℕ → JobRow → JobRow
claim_row me o workers now r = if may_claim me o workers r then release_row now r else r

unfoldable pub recover_stuck_jobs :
    String → Database → RecoverOptions → Result (List Job × Database)
recover_stuck_jobs me db o =
    if db.online
    then (let workers = forget_stale o db in
        ok (
          map as_pending (jobs_of (keep (may_claim me o workers) db.jobs)),
          record db { workers = workers; jobs = map (claim_row me o workers db.now) db.jobs },
        ))
    else err unreachable

unfoldable pub delete_job : Database → String → Result Database
delete_job db id =
    if db.online then ok (record db { jobs = without row_key id db.jobs }) else err unreachable

unfoldable pub check_health : Database → ComponentHealth
check_health db = record { status = if db.online then up else down; kind = none }

abbrev pub disown : String → JobRow → JobRow
disown me r =
    if owned_by me r.worker_id && in_flight r.job.status
    then record r { worker_id = none; locked_at = none }
    else r

-- A failure here is caught, so that closing always ends.
unfoldable pub close : String → Database → Database
close me db =
    if db.online
    then record db { jobs = map (disown me) db.jobs; workers = without worker_key me db.workers }
    else db

abbrev pub postgres_store : String → IStore Database
postgres_store me = record {
  save_job = save_job;
  get_job = get_job;
  update_job = update_job me;
  get_all_jobs = get_all_jobs;
  recover_stuck_jobs = recover_stuck_jobs me;
  delete_job = delete_job;
  check_health = check_health;
  tracks_job_ownership = true;
}
