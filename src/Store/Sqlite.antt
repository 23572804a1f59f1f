-- ===== src/Store/Sqlite.antt =====
-- packages/core/src/store/SQLiteStore.ts: one local file, with the table `queueway_jobs`. The JSON
-- text of a job's data is what the column holds; times are in milliseconds.
pub mod Laws
pub mod Recovery
use queueway.Base.{
  ℕ, String, Bool, true, false, Option, none, some, List, [], ◌∷◌, ◌++◌, map, Result, ok, err,
  unreachable, duplicate, includes, keep, if◌then◌else◌,
}
use queueway.Types.{
  JobStatus, pending, status_name, Job, RecoverOptions, or_else, ComponentHealth, up, down, patch,
}
use queueway.Store.Table.{find, rewrite, without}
use queueway.Store.Listing.{newest_first, of_status, limited}
use queueway.Store.Contract.{IStore}

-- `online` is whether the file can be reached.
pub record SqliteStore : Type 0 where
  pub online : Bool
  pub rows : List Job

abbrev pub row_key : Job → String
row_key j = j.id

-- `CREATE TABLE IF NOT EXISTS`: what is there stays.
unfoldable pub initialize : SqliteStore → Result SqliteStore
initialize s = if s.online then ok s else err unreachable

unfoldable pub save_job : SqliteStore → Job → Result SqliteStore
save_job s job =
    if s.online
    then elim (find row_key job.id s.rows) [
      | none ↦ ok (record s { rows = s.rows ++ job ∷ [] })
      | some _ ↦ err duplicate
    ]
    else err unreachable

unfoldable pub get_job : SqliteStore → String → Result (Option Job)
get_job s id = if s.online then ok (find row_key id s.rows) else err unreachable

unfoldable pub update_job : SqliteStore → String → JobStatus → Option ℕ → Result SqliteStore
update_job s id st a =
    if s.online
    then ok (record s { rows = rewrite row_key id (patch st a) s.rows })
    else err unreachable

unfoldable pub get_all_jobs : SqliteStore → Option String → Option ℕ → Result (List Job)
get_all_jobs s status limit =
    if s.online
    then ok (limited limit (newest_first (of_status status s.rows)))
    else err unreachable

-- `options.x !== false`
abbrev pub unless_false : Option Bool → Bool
unless_false o = or_else o true

-- The two `unshift`s put their status in front of the list.
unfoldable pub statuses_for : (include_processing include_pending : Bool) → List String
statuses_for true true = "pending" ∷ "processing" ∷ "retrying" ∷ []
statuses_for true false = "processing" ∷ "retrying" ∷ []
statuses_for false true = "pending" ∷ "retrying" ∷ []
statuses_for false false = "retrying" ∷ []

abbrev pub stuck_statuses : RecoverOptions → List String
stuck_statuses o = statuses_for (unless_false o.include_processing) (unless_false o.include_pending)

abbrev pub is_stuck : RecoverOptions → Job → Bool
is_stuck options job = includes (status_name job.status) (stuck_statuses options)

abbrev pub as_pending : Job → Job
as_pending job = record job { status = pending }

-- `UPDATE … SET status = 'pending' WHERE status IN (…)`
abbrev pub reset_stuck : RecoverOptions → Job → Job
reset_stuck options job = if is_stuck options job then as_pending job else job

unfoldable pub recover_stuck_jobs : SqliteStore → RecoverOptions → Result (List Job × SqliteStore)
recover_stuck_jobs s options =
    if s.online
    then elim (keep (is_stuck options) s.rows) [
      | [] ↦ ok ([], s)
      | x ∷ xs ↦ ok (map as_pending (x ∷ xs), record s { rows = map (reset_stuck options) s.rows })
    ]
    else err unreachable

unfoldable pub delete_job : SqliteStore → String → Result SqliteStore
delete_job s id =
    if s.online then ok (record s { rows = without row_key id s.rows }) else err unreachable

unfoldable pub check_health : SqliteStore → ComponentHealth
check_health s = record { status = if s.online then up else down; kind = none }

abbrev pub sqlite_store : IStore SqliteStore
sqlite_store = record {
  save_job = save_job;
  get_job = get_job;
  update_job = update_job;
  get_all_jobs = get_all_jobs;
  recover_stuck_jobs = recover_stuck_jobs;
  delete_job = delete_job;
  check_health = check_health;
  tracks_job_ownership = false;
}
