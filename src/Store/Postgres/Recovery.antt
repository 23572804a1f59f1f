-- ===== src/Store/Postgres/Recovery.antt =====
-- Recovery by a worker of a shared store: whose jobs it takes, and whose it leaves.
use mathlib.Core.Option
use queueway.Base.{
  inr, inl, Bool-cases, none, [], ap, ◌∙◌, eq_iff, ◌∷◌, keep, false, ◌==◌, arith, some, ok, true,
  ◌≡◌, map, List, String, refl,
}
use queueway.Store.Postgres.{
  release_row, is_fresh, job_of, jobs_of, row_key, worker_key, as_pending, claim_row, JobRow,
  Worker, Database, recover_stuck_jobs, may_claim, forget_stale, alone_on_the_store,
}
use queueway.Types.{RecoverOptions, Job}
use queueway.Store.Table.{find-keep, find-map_across, only, find-map, find, IsKeyed}

abbrev pub returned_key : Job → String
returned_key j = j.id

abbrev pub recovered_jobs : String → RecoverOptions → Database → List Job
recovered_jobs me o db =
    map as_pending (jobs_of (keep (may_claim me o (forget_stale o db)) db.jobs))

abbrev pub recovered_db : String → RecoverOptions → Database → Database
recovered_db me o db = record db {
  workers = forget_stale o db;
  jobs = map (claim_row me o (forget_stale o db) db.now) db.jobs;
}

pub recover_lem :
    (me : String) (db : Database) (o : RecoverOptions)
    → db.online ≡ true
    → recover_stuck_jobs me db o ≡ ok (recovered_jobs me o db, recovered_db me o db)
unfolding recover_stuck_jobs
recover_lem me db o e = rw e refl

-- Which job of an id is handed back, and what its row becomes.
pub find_recovered :
    (me j : String) (db : Database) (o : RecoverOptions)
    → IsKeyed row_key db.jobs
    → find returned_key j (recovered_jobs me o db)
      ≡ Option.map as_pending
          (job_of (only row_key (may_claim me o (forget_stale o db)) (find row_key j db.jobs)))
find_recovered me j db o k =
    let claims = may_claim me o (forget_stale o db) in
    find-map_across returned_key returned_key as_pending j (jobs_of (keep claims db.jobs))
      (λ r. refl)
    ∙ ap (Option.map as_pending) (
        ground (
          arith,
          find-map_across row_key returned_key (λ (r : JobRow). r.job) j (keep claims db.jobs)
              (λ r. refl),
          find-keep row_key j claims db.jobs k,
        ))

pub find_claimed :
    (me j : String) (db : Database) (o : RecoverOptions)
    → find row_key j (recovered_db me o db).jobs
      ≡ Option.map (claim_row me o (forget_stale o db) db.now) (find row_key j db.jobs)
find_claimed me j db o =
    find-map row_key j (claim_row me o (forget_stale o db) db.now) db.jobs (λ r. ground arith)

-- Alone on the store, a worker that is registered is the worker itself.
alone_is_me :
    (me owner : String) (ws : List Worker) (w : Worker)
    → alone_on_the_store me ws ≡ true
    → find worker_key owner ws ≡ some w
    → (owner == me) ≡ true
unfolding alone_on_the_store
alone_is_me me owner [] w a e = cc
alone_is_me me owner (x ∷ ws) w a e =
    ground (arith, alone_is_me me owner ws w, eq_iff x.id owner, eq_iff x.id me, eq_iff owner me)

-- A row whose owner is registered is not claimed.
pub registered_is_spared :
    (me owner : String) (o : RecoverOptions) (ws : List Worker) (w : Worker) (r : JobRow)
    → r.worker_id ≡ some owner
    → find worker_key owner ws ≡ some w
    → may_claim me o ws r ≡ false
unfolding may_claim
registered_is_spared me owner o ws w r q e = ground (arith, alone_is_me me owner ws w)

pub fresh_is_kept :
    (owner : String) (o : RecoverOptions) (db : Database) (w : Worker)
    → IsKeyed worker_key db.workers
    → find worker_key owner db.workers ≡ some w
    → is_fresh o db.now w ≡ true
    → find worker_key owner (forget_stale o db) ≡ some w
unfolding forget_stale
fresh_is_kept owner o db w k e f =
    rw (find-keep worker_key owner (is_fresh o db.now) db.workers k, e) (rw f refl)

pub recovered_parts :
    (me : String) (db db' : Database) (o : RecoverOptions) (jobs : List Job)
    → recover_stuck_jobs me db o ≡ ok (jobs, db')
    → (db.online ≡ true) × (jobs ≡ recovered_jobs me o db) × (db' ≡ recovered_db me o db)
recovered_parts me db db' o jobs e = elim (Bool-cases db.online) [
  | inl up ↦ (up, cc (recover_lem me db o up, e), cc (recover_lem me db o up, e))
  | inr down ↦ absurd (unfold recover_stuck_jobs in ground (arith, down, e))
]

-- A row that is not claimed is left alone and is not handed back.
pub spared_row :
    (me : String) (db : Database) (o : RecoverOptions) (r : JobRow)
    → IsKeyed row_key db.jobs
    → find row_key r.job.id db.jobs ≡ some r
    → may_claim me o (forget_stale o db) r ≡ false
    → (find returned_key r.job.id (recovered_jobs me o db) ≡ none)
      × (find row_key r.job.id (recovered_db me o db).jobs ≡ some r)
spared_row me db o r k e f = (
  find_recovered me r.job.id db o k ∙ rw e (rw f refl),
  find_claimed me r.job.id db o ∙ rw e (rw f refl),
)

-- A row that is claimed is handed back as pending, and is owned by nobody.
pub claimed_row :
    (me : String) (db : Database) (o : RecoverOptions) (r : JobRow)
    → IsKeyed row_key db.jobs
    → find row_key r.job.id db.jobs ≡ some r
    → may_claim me o (forget_stale o db) r ≡ true
    → (find returned_key r.job.id (recovered_jobs me o db) ≡ some (as_pending r.job))
      × (find row_key r.job.id (recovered_db me o db).jobs ≡ some (release_row db.now r))
claimed_row me db o r k e f = (
  find_recovered me r.job.id db o k ∙ rw e (rw f refl),
  find_claimed me r.job.id db o ∙ rw e (rw f refl),
)
