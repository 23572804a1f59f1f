-- ===== src/Tests/Stores.antt =====
-- The stores at concrete tables.
use queueway.Store.Postgres.{
  update_job, update_row, beat, release_row, alone_on_the_store, Worker, JobRow, forget_stale,
  Database, row_key, as_pending, may_claim, statuses,
}
use queueway.Store.Sqlite
use queueway.Store.Sqlite.{is_stuck, reset_stuck, SqliteStore, recover_stuck_jobs}
use queueway.Base.{
  if◌then◌else◌, arith, inr, String, false, [], ok, ◌∷◌, ◌≡◌, some, true, none, List, refl,
}
use queueway.Store.Table.{rewrite, find}
use queueway.Types.{pending, patch, completed, processing, Job, RecoverOptions}
use queueway.Store.Postgres.Recovery.{recover_lem, recovered_jobs, recovered_db, returned_key}
use queueway.Store.Postgres.Heartbeat.{forgotten_worker_is_robbed, started_db}
use queueway.Store.Sqlite.Recovery.{is_lost, recover_exact}
use queueway.Store.Postgres.Ownership.{recover_takes_orphans, recover_spares_live_owner}
use queueway.Store.Postgres.Claims.{claims_are_disjoint}
use queueway.Store.Postgres.Session.{
  recovers, punctual_worker_lives, live, ticks, IsSeen, passes, Session, join_store, PoolEvent,
}

abbrev pub job_a : Job
job_a = record {
  id = "a";
  event_name = "email";
  payload = "{}";
  status = processing;
  attempts = 1;
  created_at = 5;
}

abbrev pub live_row : JobRow
live_row = record { job = job_a; worker_id = some "w1"; locked_at = some 90000; updated_at = 90000 }

abbrev pub worker_1 : Worker
worker_1 = record { id = "w1"; started_at = 0; last_seen = 90000 }

abbrev stale_worker : Worker
stale_worker = record { id = "w1"; started_at = 0; last_seen = 1000 }

abbrev pub worker_2 : Worker
worker_2 = record { id = "w2"; started_at = 0; last_seen = 100000 }

abbrev pub defaults : RecoverOptions
defaults = record { include_pending = none; include_processing = none; stale_after_ms = none }

-- The owner "w1" of the job is alive, "w2" recovers.
abbrev pub shared : Database
shared = record {
  online = true;
  now = 100000;
  jobs = live_row ∷ [];
  workers = worker_1 ∷ worker_2 ∷ [];
  takes_json = λ _. true;
}

-- The heartbeat of "w1" is 99 seconds old.
abbrev stale : Database
stale = record shared { workers = stale_worker ∷ worker_2 ∷ [] }

recover_spares_live_owner_example :
    find returned_key "a" (recovered_jobs "w2" defaults shared) ≡ none
unfolding forget_stale alone_on_the_store statuses may_claim
recover_spares_live_owner_example =
    (recover_spares_live_owner "w2" "w1" shared (recovered_db "w2" defaults shared) defaults
      (recovered_jobs "w2" defaults shared) live_row worker_1 (refl, tt) (refl, (refl, tt)) refl
      refl refl refl (recover_lem "w2" shared defaults refl)).0

recover_takes_orphans_example :
    find returned_key "a" (recovered_jobs "w2" defaults stale) ≡ some (as_pending job_a)
recover_takes_orphans_example =
    (recover_takes_orphans "w2" stale (recovered_db "w2" defaults stale) defaults
      (recovered_jobs "w2" defaults stale) live_row (refl, tt) (refl, (refl, tt)) refl
      (inr (refl, refl)) (refl, refl) (recover_lem "w2" stale defaults refl)).0

claims_are_disjoint_example :
    find returned_key "a" (recovered_jobs "w3" defaults (recovered_db "w2" defaults stale)) ≡ none
unfolding forget_stale alone_on_the_store statuses may_claim
claims_are_disjoint_example =
    claims_are_disjoint "w2" "w3" "a" stale (recovered_db "w2" defaults stale)
      (recovered_db "w3" defaults (recovered_db "w2" defaults stale)) defaults defaults
      (recovered_jobs "w2" defaults stale)
      (recovered_jobs "w3" defaults (recovered_db "w2" defaults stale)) worker_2 (as_pending job_a)
      (refl, tt) (refl, (refl, tt)) refl refl refl refl (recover_lem "w2" stale defaults refl)
      (recover_lem "w3" (recovered_db "w2" defaults stale) defaults refl) refl

-- "w1" was stale when "w2" recovered; it then starts the job and sends a heartbeat.
abbrev released_a : JobRow
released_a = release_row 100000 live_row

abbrev restarted : Database
restarted = started_db "w1" "a" 1 (recovered_db "w2" defaults stale)

forgotten_worker_is_robbed_example :
    find returned_key "a" (recovered_jobs "w2" defaults restarted)
    ≡ some (patch pending (some 1) job_a)
unfolding forget_stale alone_on_the_store statuses may_claim update_job beat
forgotten_worker_is_robbed_example =
    forgotten_worker_is_robbed "w2" "w1" stale (recovered_db "w2" defaults stale)
      (record (recovered_db "w2" defaults stale) {
        jobs =
            rewrite row_key "a" (update_row "w1" 100000 processing (some 1))
              (recovered_db "w2" defaults stale).jobs;
      })
      restarted (recovered_db "w2" defaults restarted) defaults stale_worker 1 released_a
      (recovered_jobs "w2" defaults stale) (recovered_jobs "w2" defaults restarted) (refl, tt)
      (refl, (refl, tt)) refl refl refl refl (recover_lem "w2" stale defaults refl) refl refl refl
      (recover_lem "w2" restarted defaults refl)

abbrev local : SqliteStore
local = record { online = true; rows = job_a ∷ record job_a { id = "b"; status = completed } ∷ [] }

recover_exact_example :
    (jobs : List Job) × (s : SqliteStore) × (recover_stuck_jobs local defaults ≡ ok (jobs, s))
    × ((j : String) (r : Job)
        → find Sqlite.row_key j local.rows ≡ some r
        → (find Sqlite.row_key j jobs
            ≡ (if is_lost defaults r then some (record r { status = pending }) else none))
          × (find Sqlite.row_key j s.rows
              ≡ some (if is_lost defaults r then record r { status = pending } else r)))
    × ((j : String)
        → find Sqlite.row_key j local.rows ≡ none
        → (find Sqlite.row_key j jobs ≡ none) × (find Sqlite.row_key j s.rows ≡ none))
recover_exact_example = recover_exact local defaults refl (refl, (refl, tt))

abbrev external : RecoverOptions
external = record defaults { include_pending = some false }

abbrev idle_session : Session
idle_session = record {
  database = record { online = true; now = 500; jobs = []; workers = []; takes_json = λ _. true };
  timer = false;
  pool_open = true;
}

abbrev ten_seconds : List PoolEvent
ten_seconds = passes 10000 ∷ ticks ∷ recovers "w2" none none ∷ passes 20000 ∷ []

punctual_worker_lives_example :
    ((join_store "w1" idle_session).0 ≡ ok tt)
    × IsSeen "w1" 30000 (live "w1" ten_seconds (join_store "w1" idle_session).1).database
punctual_worker_lives_example =
    punctual_worker_lives "w1" ten_seconds idle_session refl tt refl
      (omega arith, (omega arith, tt))
