-- ===== src/Store/Postgres/Heartbeat.antt =====
-- What the heartbeat of PostgreSQLStore.ts keeps, and what it does not restore.
use mathlib.Core.Option
use queueway.Store.Postgres.{
  recover_stuck_jobs, is_false, update_row, relock, row_key, JobRow, update_job, forget_stale, seen,
  is_fresh, Worker, worker_key, Database, beat,
}
use queueway.Base.{
  ap, inr, inl, map, Bool-cases, ◌==◌, ◌∙◌, false, List, ℕ, eq_refl, arith, refl, true, ok, some,
  none, ◌≡◌, String,
}
use queueway.Types.{pending, patch, processing, Job, RecoverOptions}
use queueway.Store.Table.{
  IsKeyed-keep, IsKeyed-rewrite, find-map, IsKeyed-map, rewrite, find-keep, IsKeyed, find-rewrite,
  find,
}
use queueway.Store.Postgres.Recovery.{recovered_parts, claimed_row, recovered_jobs, returned_key}
use queueway.Store.Postgres.Ownership.{orphan_is_claimed, IsOrphaned}
use queueway.Store.Postgres.Claims.{recovered-IsKeyed}

-- A heartbeat makes a registered worker fresh.
beat_refreshes :
    (me : String) (db db' : Database) (o : RecoverOptions) (w : Worker)
    → find worker_key me db.workers ≡ some w
    → beat me db ≡ ok db'
    → (w' : Worker) × (find worker_key me db'.workers ≡ some w') × (is_fresh o db'.now w' ≡ true)
unfolding beat
beat_refreshes me db db' o w e h = (
  seen db.now w,
  ground (arith, find-rewrite worker_key me me (seen db.now) db.workers (λ w. refl), eq_refl me),
  ground arith,
)

-- A heartbeat does not register a worker that is not registered.
beat_never_registers :
    (me : String) (db db' : Database)
    → find worker_key me db.workers ≡ none
    → beat me db ≡ ok db'
    → find worker_key me db'.workers ≡ none
unfolding beat
beat_never_registers me db db' e h =
    ground (arith, find-rewrite worker_key me me (seen db.now) db.workers (λ w. refl))

-- A worker whose heartbeat went stale is forgotten by the recovery of any worker.
stale_is_forgotten :
    (b : String) (o : RecoverOptions) (db : Database) (w : Worker)
    → IsKeyed worker_key db.workers
    → find worker_key b db.workers ≡ some w
    → is_fresh o db.now w ≡ false
    → find worker_key b (forget_stale o db) ≡ none
unfolding forget_stale
stale_is_forgotten b o db w k e f =
    find-keep worker_key b (is_fresh o db.now) db.workers k ∙ rw e (rw f refl)

-- The row of a job that `b` has just started; a heartbeat of `b` leaves it as it is.
abbrev pub started_row : String → ℕ → ℕ → JobRow → JobRow
started_row b now n r = update_row b now processing (some n) r

relock-started_row :
    (b : String) (now n : ℕ) (r : JobRow)
    → relock b now (started_row b now n r) ≡ started_row b now n r
relock-started_row b now n r = rw (eq_refl b) refl

-- What starting a job and a heartbeat make of the database.
abbrev pub started_db : String → String → ℕ → Database → Database
started_db b id n db = record db {
  workers = rewrite worker_key b (seen db.now) db.workers;
  jobs =
      map (relock b db.now) (rewrite row_key id (update_row b db.now processing (some n)) db.jobs);
}

started_lem :
    (b id : String) (db db' db'' : Database) (n : ℕ)
    → update_job b db id processing (some n) ≡ ok db'
    → beat b db' ≡ ok db''
    → db'' ≡ started_db b id n db
unfolding update_job beat
started_lem b id db db' db'' n h h' = elim (Bool-cases db.online) [
  | inl e ↦
      let q : record db {
        jobs = rewrite row_key id (update_row b db.now processing (some n)) db.jobs;
      }
          ≡ db' =
        ground (arith, e, h) in
      ground (arith, e, rw (← q) at h')
  | inr e ↦ absurd (ground (arith, e, h))
]

started_row_lem :
    (b : String) (db : Database) (n : ℕ) (r : JobRow)
    → find row_key r.job.id db.jobs ≡ some r
    → find row_key r.job.id (started_db b r.job.id n db).jobs ≡ some (started_row b db.now n r)
started_row_lem b db n r e =
    let id = r.job.id in
    let start = update_row b db.now processing (some n) in
    let started : find row_key id (rewrite row_key id start db.jobs)
        ≡ some (started_row b db.now n r) =
      find-rewrite row_key id id start db.jobs (λ r. refl) ∙ rw e (rw (eq_refl id) refl) in
    find-map row_key id (relock b db.now) (rewrite row_key id start db.jobs) (λ r. ground arith)
    ∙ ap (Option.map (relock b db.now)) started
    ∙ ap some (relock-started_row b db.now n r)

started-IsKeyed :
    (b id : String) (db : Database) (n : ℕ)
    → IsKeyed row_key db.jobs
    → IsKeyed row_key (started_db b id n db).jobs
started-IsKeyed b id db n k =
    IsKeyed-map row_key (relock b db.now)
      (rewrite row_key id (update_row b db.now processing (some n)) db.jobs) (λ r. ground arith)
      (IsKeyed-rewrite row_key id (update_row b db.now processing (some n)) db.jobs (λ r. refl) k)

unregistered_is_robbed :
    (a b : String) (db : Database) (o : RecoverOptions) (n : ℕ) (r : JobRow)
    → IsKeyed row_key db.jobs
    → IsKeyed worker_key db.workers
    → (b == a) ≡ false
    → is_false o.include_processing ≡ false
    → find worker_key b db.workers ≡ none
    → find row_key r.job.id db.jobs ≡ some r
    → find returned_key r.job.id (recovered_jobs a o (started_db b r.job.id n db))
      ≡ some (patch pending (some n) r.job)
unregistered_is_robbed a b db o n r kj kw d ip ew er =
    let db' = started_db b r.job.id n db in
    let gone : find worker_key b db'.workers ≡ none =
      ground (arith, find-rewrite worker_key b b (seen db.now) db.workers (λ w. refl), ew) in
    let kw' : IsKeyed worker_key db'.workers =
      IsKeyed-rewrite worker_key b (seen db.now) db.workers (λ w. refl) kw in
    let row = started_row_lem b db n r er in
    let orphaned : IsOrphaned a o db' (some b) = (d, rw gone refl) in
    let claimed =
      orphan_is_claimed a o db' (started_row b db.now n r) kw' (inr (refl, ip)) orphaned in
    (claimed_row a db' o (started_row b db.now n r) (started-IsKeyed b r.job.id db n kj) row
      claimed).0

-- If a worker was stale when another one recovered, then even after it starts a job and sends a
-- heartbeat, a recovery of that other worker at the same instant, for which processing jobs count as
-- stuck, hands the job back: the heartbeat does not register the worker again.
pub forgotten_worker_is_robbed :
    (a b : String) (db db₁ db₂ db₃ db₄ : Database) (o : RecoverOptions) (w : Worker) (n : ℕ)
    (r : JobRow) (first taken : List Job)
    → IsKeyed row_key db.jobs
    → IsKeyed worker_key db.workers
    → (b == a) ≡ false
    → is_false o.include_processing ≡ false
    → find worker_key b db.workers ≡ some w
    → is_fresh o db.now w ≡ false
    → recover_stuck_jobs a db o ≡ ok (first, db₁)
    → find row_key r.job.id db₁.jobs ≡ some r
    → update_job b db₁ r.job.id processing (some n) ≡ ok db₂
    → beat b db₂ ≡ ok db₃
    → recover_stuck_jobs a db₃ o ≡ ok (taken, db₄)
    → find returned_key r.job.id taken ≡ some (patch pending (some n) r.job)
forgotten_worker_is_robbed a b db db₁ db₂ db₃ db₄ o w n r first taken kj kw d ip ew stale e er u h
      e' =
    let (_, _, q) = recovered_parts a db db₁ o first e in
    let (_, q', _) = recovered_parts a db₃ db₄ o taken e' in
    let kj' : IsKeyed row_key db₁.jobs = rw q (recovered-IsKeyed a db o kj) in
    let kw' : IsKeyed worker_key db₁.workers =
      rw q (unfold forget_stale in IsKeyed-keep worker_key (is_fresh o db.now) db.workers kw) in
    let gone : find worker_key b db₁.workers ≡ none =
      rw q (stale_is_forgotten b o db w kw ew stale) in
    rw (q', started_lem b r.job.id db₁ db₂ db₃ n u h)
      (unregistered_is_robbed a b db₁ o n r kj' kw' d ip gone er)
