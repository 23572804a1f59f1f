-- ===== src/Store/Postgres/Ownership.antt =====
-- Whose jobs `recoverStuckJobs` of PostgreSQLStore.ts takes over.
use queueway.Store.Postgres.{
  statuses_for, not_mine, alone_on_the_store, owner_gone, release_row, as_pending, is_false,
  recover_stuck_jobs, is_fresh, worker_key, row_key, Worker, JobRow, forget_stale, statuses,
  Database, may_claim,
}
use queueway.Base.{
  inr, not, inl, includes, Bool, arith, refl, ok, none, false, true, ◌==◌, ◌⊎◌, some, ◌≡◌, Option,
  List, String,
}
use queueway.Types.{or_else, status_name, JobStatus, processing, retrying, Job, RecoverOptions}
use queueway.Store.Table.{find-keep, only, find, IsKeyed}
use queueway.Store.Postgres.Recovery.{
  spared_row, registered_is_spared, claimed_row, fresh_is_kept, recovered_parts, returned_key,
}

-- On a shared store whose tables have distinct keys, a recovery leaves alone every job whose owner
-- is registered with a fresh heartbeat: it is not handed back and its row stays as it is,
-- whichever worker recovers and whatever counts as stuck.
pub recover_spares_live_owner :
    (me owner : String) (db db' : Database) (o : RecoverOptions) (jobs : List Job) (r : JobRow)
    (w : Worker)
    → IsKeyed row_key db.jobs
    → IsKeyed worker_key db.workers
    → find row_key r.job.id db.jobs ≡ some r
    → r.worker_id ≡ some owner
    → find worker_key owner db.workers ≡ some w
    → is_fresh o db.now w ≡ true
    → recover_stuck_jobs me db o ≡ ok (jobs, db')
    → (find returned_key r.job.id jobs ≡ none) × (find row_key r.job.id db'.jobs ≡ some r)
recover_spares_live_owner me owner db db' o jobs r w kj kw er eo ew fresh e =
    let (up, ej, ed) = recovered_parts me db db' o jobs e in
    let kept = fresh_is_kept owner o db w kw ew fresh in
    let spared = registered_is_spared me owner o (forget_stale o db) w r eo kept in
    rw (ej, ed) (spared_row me db o r kj er spared)

-- The owner of a job is gone: nobody, or another worker that is not registered or whose heartbeat
-- is stale.
abbrev pub IsOrphaned : String → RecoverOptions → Database → Option String → Type 0
IsOrphaned me o db none = Unit
IsOrphaned me o db (some owner) =
    ((owner == me) ≡ false)
    × (only worker_key (is_fresh o db.now) (find worker_key owner db.workers) ≡ none)

retrying_is_stuck :
    (processing pending alone : Bool)
    → includes "retrying" (statuses processing pending alone) ≡ true
unfolding statuses
retrying_is_stuck true true true = refl
retrying_is_stuck true _ _ = refl
retrying_is_stuck false true true = refl
retrying_is_stuck false _ _ = refl

processing_is_stuck :
    (pending alone : Bool) → includes "processing" (statuses true pending alone) ≡ true
unfolding statuses
processing_is_stuck true true = refl
processing_is_stuck _ _ = refl

status_is_stuck :
    (o : RecoverOptions) (st : JobStatus) (alone : Bool)
    → (st ≡ retrying) ⊎ ((st ≡ processing) × (is_false o.include_processing ≡ false))
    → includes (status_name st) (statuses_for o alone) ≡ true
status_is_stuck o st alone (inl e) =
    rw e (
      retrying_is_stuck (not (is_false o.include_processing)) (or_else o.include_pending true)
        alone)
status_is_stuck o st alone (inr (e, i)) =
    rw (e, i) (processing_is_stuck (or_else o.include_pending true) alone)

orphan_is_free :
    (me : String) (o : RecoverOptions) (db : Database) (owner : Option String)
    → IsKeyed worker_key db.workers
    → IsOrphaned me o db owner
    → (owner_gone (forget_stale o db) owner ≡ true) × (not_mine me owner ≡ true)
unfolding forget_stale
orphan_is_free me o db none k h = (refl, refl)
orphan_is_free me o db (some owner) k h =
    ground (arith, find-keep worker_key owner (is_fresh o db.now) db.workers k)

pub orphan_is_claimed :
    (me : String) (o : RecoverOptions) (db : Database) (r : JobRow)
    → IsKeyed worker_key db.workers
    → (r.job.status ≡ retrying)
      ⊎ ((r.job.status ≡ processing) × (is_false o.include_processing ≡ false))
    → IsOrphaned me o db r.worker_id
    → may_claim me o (forget_stale o db) r ≡ true
unfolding may_claim
orphan_is_claimed me o db r k st h =
    let alone = alone_on_the_store me (forget_stale o db) in
    let (gone, other) = orphan_is_free me o db r.worker_id k h in
    rw (status_is_stuck o r.job.status alone st) (ground (arith, gone, other))

-- A recovery takes every retrying job, and every processing job if these count as stuck, that
-- nobody owns or whose owner is another worker that is not registered or is stale: it is handed
-- back as pending and its row is pending and unowned.
pub recover_takes_orphans :
    (me : String) (db db' : Database) (o : RecoverOptions) (jobs : List Job) (r : JobRow)
    → IsKeyed row_key db.jobs
    → IsKeyed worker_key db.workers
    → find row_key r.job.id db.jobs ≡ some r
    → (r.job.status ≡ retrying)
      ⊎ ((r.job.status ≡ processing) × (is_false o.include_processing ≡ false))
    → IsOrphaned me o db r.worker_id
    → recover_stuck_jobs me db o ≡ ok (jobs, db')
    → (find returned_key r.job.id jobs ≡ some (as_pending r.job))
      × (find row_key r.job.id db'.jobs ≡ some (release_row db.now r))
recover_takes_orphans me db db' o jobs r kj kw er st h e =
    let (up, ej, ed) = recovered_parts me db db' o jobs e in
    rw (ej, ed) (claimed_row me db o r kj er (orphan_is_claimed me o db r kw st h))
