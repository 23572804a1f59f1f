-- ===== src/Store/Memory/Laws.antt =====
-- InMemoryStore.ts keeps the contract of a store.
use mathlib.Core.Option
use queueway.Base.{
  [], ◌∷◌, inr, inl, List, ℕ, String, true, Option, some, ◌≡◌, refl, ok, arith, ◌==◌, eq_iff,
  Option-cases, if◌then◌else◌,
}
use queueway.Types.{JobStatus, Job, patch}
use queueway.Store.Table.{find, put, find-put, find-without}
use queueway.Store.Contract.{IsStore}
use queueway.Store.Memory.{
  without, InMemoryStore, job_key, in_memory_store, save_job, get_job, update_job, delete_job,
  check_health,
}

-- A found job has the id that was looked for.
id_of_find :
    (id : String) (jobs : List Job) (job : Job) → find job_key id jobs ≡ some job → job.id ≡ id
id_of_find id [] job e = cc
id_of_find id (x ∷ xs) job e = ground (arith, id_of_find id xs job, eq_iff x.id id)

update_lem :
    (s : InMemoryStore) (id : String) (st : JobStatus) (a : Option ℕ)
    → (s' : InMemoryStore) × (update_job s id st a ≡ ok s')
      × ((j : String)
          → find job_key j s'.jobs ≡ (
              if id == j
              then Option.map (patch st a) (find job_key j s.jobs)
              else find job_key j s.jobs))
unfolding update_job
update_lem s id st a = elim (Option-cases (find job_key id s.jobs)) [
  | inl e ↦ (s, rw (e, update_job) refl, λ j. ground (arith, eq_iff id j, e))
  | inr (job, e) ↦ (
    record { jobs = put job_key (patch st a job) s.jobs },
    rw (e, update_job) refl,
    λ j. ground (
      arith,
      eq_iff id j,
      e,
      id_of_find id s.jobs job e,
      find-put job_key (patch st a job) j s.jobs,
    ),
  )
]

in_memory_contract : IsStore in_memory_store
unfolding save_job get_job delete_job check_health
in_memory_contract = record {
  find = λ s id. find job_key id s.jobs;
  online = λ s. true;
  stored = λ s job. job;
  stored_keeps = λ s job. (refl, refl, refl, refl);
  get = λ s id. refl;
  accepts = λ s job. true;
  save = λ s job o fresh _.
      (record { jobs = put job_key job s.jobs }, refl, refl, λ j. find-put job_key job j s.jobs);
  update = λ s id st a o. let (s', e, h) = update_lem s id st a in (s', e, refl, h);
  delete = λ s id o. (
    record { jobs = without job_key id s.jobs },
    refl,
    refl,
    λ j. find-without job_key id j s.jobs,
  );
  save_refused = λ s job o narrow. cc narrow;
  save_down = λ s job e. cc;
  update_down = λ s id st a e. cc;
  delete_down = λ s id e. cc;
  health = λ s. refl;
}

-- The in-memory store keeps the contract of a store as the map from ids to the jobs that it holds,
-- is never down, and takes every job.
pub in_memory_store-IsStore :
    (law : IsStore in_memory_store) × ((s : InMemoryStore) (id : String)
      → law.find s id ≡ find job_key id s.jobs)
    × ((s : InMemoryStore) → law.online s ≡ true)
    × ((s : InMemoryStore) (job : Job) → law.accepts s job ≡ true)
unfolding in_memory_contract
in_memory_store-IsStore = (in_memory_contract, λ s id. refl, λ s. refl, λ s job. refl)
