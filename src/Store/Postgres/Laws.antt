-- ===== src/Store/Postgres/Laws.antt =====
-- PostgreSQLStore.ts keeps the contract of a store, whichever worker uses it.
use mathlib.Core.Option
use queueway.Base.{
  ◌&&◌, ◌^◌, ltb, leb, length, chars, refl, some, [], arith, ◌∷◌, ◌==◌, if◌then◌else◌, ok, ◌++◌,
  none, true, Option, ◌≡◌, ℕ, String,
}
use queueway.Store.Postgres.{
  fits_row, postgres_store, new_row, check_health, update_row, delete_job, JobRow, row_key,
  update_job, job_of, get_job, save_job, Database,
}
use queueway.Types.{patch, JobStatus, Job}
use queueway.Store.Table.{find-append, find-rewrite, find-without, without, rewrite, find}
use queueway.Store.Contract.{IsStore}

job_of-update :
    (me : String) (now : ℕ) (st : JobStatus) (a : Option ℕ) (r : Option JobRow)
    → job_of (Option.map (update_row me now st a) r) ≡ Option.map (patch st a) (job_of r)
job_of-update me now st a none = refl
job_of-update me now st a (some r) = refl

find_updated :
    (me : String) (db : Database) (id j : String) (st : JobStatus) (a : Option ℕ)
    → job_of (find row_key j (rewrite row_key id (update_row me db.now st a) db.jobs)) ≡ (
        if id == j
        then Option.map (patch st a) (job_of (find row_key j db.jobs))
        else job_of (find row_key j db.jobs))
find_updated me db id j st a =
    rw (find-rewrite row_key id j (update_row me db.now st a) db.jobs (λ r. refl))
      (ground (arith, job_of-update me db.now st a (find row_key j db.jobs)))

find_saved :
    (db : Database) (job : Job) (j : String)
    → job_of (find row_key job.id db.jobs) ≡ none
    → job_of (find row_key j (db.jobs ++ new_row db.now job ∷ [])) ≡ (
        if job.id == j
        then some (record job { created_at = db.now })
        else job_of (find row_key j db.jobs))
find_saved db job j fresh = ground (arith, find-append row_key (new_row db.now job) j db.jobs)

save_fresh :
    (db : Database) (job : Job)
    → db.online ≡ true
    → job_of (find row_key job.id db.jobs) ≡ none
    → fits_row db job ≡ true
    → save_job db job ≡ ok (record db { jobs = db.jobs ++ new_row db.now job ∷ [] })
unfolding save_job
save_fresh db job o fresh fits = ground arith

find_deleted :
    (db : Database) (id j : String)
    → job_of (find row_key j (without row_key id db.jobs))
      ≡ (if id == j then none else job_of (find row_key j db.jobs))
find_deleted db id j = rw (find-without row_key id j db.jobs) (ground arith)

postgres_contract : (me : String) → IsStore (postgres_store me)
unfolding save_job get_job update_job delete_job check_health fits_row
postgres_contract me = record {
  find = λ db id. job_of (find row_key id db.jobs);
  online = λ db. db.online;
  stored = λ db job. record job { created_at = db.now };
  stored_keeps = λ db job. (refl, refl, refl, refl);
  get = λ db id. refl;
  accepts = fits_row;
  save = λ db job o fresh fits. (
    record db { jobs = db.jobs ++ new_row db.now job ∷ [] },
    save_fresh db job o fresh fits,
    o,
    λ j. find_saved db job j fresh,
  );
  update = λ db id st a o. (
    record db { jobs = rewrite row_key id (update_row me db.now st a) db.jobs },
    ground arith,
    o,
    λ j. find_updated me db id j st a,
  );
  delete = λ db id o.
      (record db { jobs = without row_key id db.jobs }, ground arith, o, λ j. find_deleted db id j);
  save_refused = λ db job o narrow. rw (o, narrow) refl;
  save_down = λ db job e. ground arith;
  update_down = λ db id st a e. ground arith;
  delete_down = λ db id e. ground arith;
  health = λ db. refl;
}

pub postgres_store-IsStore :
    (me : String)
    → (law : IsStore (postgres_store me)) × ((s : Database) (id : String)
        → law.find s id ≡ job_of (find row_key id s.jobs))
      × ((s : Database) → law.online s ≡ s.online)
      × ((s : Database) (job : Job)
          → law.accepts s job ≡ (
              leb (length (chars job.id)) 255
              && leb (length (chars job.event_name)) 255
              && s.takes_json job.payload
              && ltb job.attempts (2 ^ 31)))
unfolding postgres_contract fits_row
postgres_store-IsStore me = (postgres_contract me, λ s id. refl, λ s. refl, λ s job. refl)
