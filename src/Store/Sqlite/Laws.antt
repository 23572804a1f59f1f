-- ===== src/Store/Sqlite/Laws.antt =====
-- SQLiteStore.ts keeps the contract of a store.
use queueway.Base.{String, refl, [], ◌∷◌, ◌++◌, arith, ◌≡◌, true, ok, none}
use queueway.Types.{Job, patch}
use queueway.Store.Table.{rewrite, without, find, find-rewrite, find-without, find-append}
use queueway.Store.Contract.{IsStore}
use queueway.Store.Sqlite.{
  SqliteStore, row_key, sqlite_store, save_job, get_job, update_job, delete_job, check_health,
}

save_fresh :
    (s : SqliteStore) (job : Job)
    → s.online ≡ true
    → find row_key job.id s.rows ≡ none
    → save_job s job ≡ ok (record s { rows = s.rows ++ job ∷ [] })
unfolding save_job
save_fresh s job o fresh = ground arith

sqlite_contract : IsStore sqlite_store
unfolding save_job get_job update_job delete_job check_health
sqlite_contract = record {
  find = λ s id. find row_key id s.rows;
  online = λ s. s.online;
  stored = λ s job. job;
  stored_keeps = λ s job. (refl, refl, refl, refl);
  get = λ s id. refl;
  accepts = λ s job. true;
  save = λ s job o fresh _. (
    record s { rows = s.rows ++ job ∷ [] },
    save_fresh s job o fresh,
    o,
    λ j. find-append row_key job j s.rows fresh,
  );
  update = λ s id st a o. (
    record s { rows = rewrite row_key id (patch st a) s.rows },
    ground arith,
    o,
    λ j. find-rewrite row_key id j (patch st a) s.rows (λ r. refl),
  );
  delete = λ s id o. (
    record s { rows = without row_key id s.rows },
    ground arith,
    o,
    λ j. find-without row_key id j s.rows,
  );
  save_refused = λ s job o narrow. cc narrow;
  save_down = λ s job e. ground arith;
  update_down = λ s id st a e. ground arith;
  delete_down = λ s id e. ground arith;
  health = λ s. refl;
}

pub sqlite_store-IsStore :
    (law : IsStore sqlite_store) × ((s : SqliteStore) (id : String)
      → law.find s id ≡ find row_key id s.rows)
    × ((s : SqliteStore) → law.online s ≡ s.online)
    × ((s : SqliteStore) (job : Job) → law.accepts s job ≡ true)
unfolding sqlite_contract
sqlite_store-IsStore = (sqlite_contract, λ s id. refl, λ s. refl, λ s job. refl)
