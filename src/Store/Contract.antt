-- ===== src/Store/Contract.antt =====
-- packages/core/src/store/IStore.ts: the operations of a job store, and what a client may rely on.
-- An outage begins between two operations: `online` says whether the next one reaches the store.
use mathlib.Core.Option
use queueway.Base.{
  false, ◌||◌, [], ◌∷◌, ℕ, String, Bool, true, false, Option, none, some, List, ◌≡◌, Result, ok,
  err, invalid, unreachable, ◌==◌, if◌then◌else◌,
}
use queueway.Types.{JobStatus, Job, RecoverOptions, ComponentHealth, up, down, patch}

pub record IStore (S : Type 0) : Type 0 where
  pub save_job : S → Job → Result S
  pub get_job : S → String → Result (Option Job)
  pub update_job : S → String → JobStatus → Option ℕ → Result S
  pub get_all_jobs : S → Option String → Option ℕ → Result (List Job)
  pub recover_stuck_jobs : S → RecoverOptions → Result (List Job × S)
  pub delete_job : S → String → Result S
  pub check_health : S → ComponentHealth
  pub tracks_job_ownership : Bool

-- A store is a finite map from ids to jobs behind a connection that may be down.
pub record IsStore {S : Type 0} (store : IStore S) : Type 0 where
  pub find : S → String → Option Job
  pub online : S → Bool
  -- What the store keeps of a job that it is given.
  pub stored : S → Job → Job
  pub stored_keeps :
      (s : S) (job : Job)
      → ((stored s job).id ≡ job.id)
        × ((stored s job).status ≡ job.status)
        × ((stored s job).attempts ≡ job.attempts)
        × ((stored s job).event_name ≡ job.event_name)
  -- Whether the store takes a new record of the job: its columns may be too narrow for it.
  pub accepts : S → Job → Bool
  pub get :
      (s : S) (id : String)
      → store.get_job s id ≡ (if online s then ok (find s id) else err unreachable)
  pub save :
      (s : S) (job : Job)
      → online s ≡ true
      → find s job.id ≡ none
      → accepts s job ≡ true
      → (s' : S) × (store.save_job s job ≡ ok s')
        × (online s' ≡ true)
        × ((j : String) → find s' j ≡ (if job.id == j then some (stored s job) else find s j))
  pub update :
      (s : S) (id : String) (st : JobStatus) (a : Option ℕ)
      → online s ≡ true
      → (s' : S) × (store.update_job s id st a ≡ ok s')
        × (online s' ≡ true)
        × ((j : String)
            → find s' j ≡ (if id == j then Option.map (patch st a) (find s j) else find s j))
  pub delete :
      (s : S) (id : String)
      → online s ≡ true
      → (s' : S) × (store.delete_job s id ≡ ok s')
        × (online s' ≡ true)
        × ((j : String) → find s' j ≡ (if id == j then none else find s j))
  pub save_refused :
      (s : S) (job : Job)
      → online s ≡ true
      → accepts s job ≡ false
      → store.save_job s job ≡ err invalid
  pub save_down : (s : S) (job : Job) → online s ≡ false → store.save_job s job ≡ err unreachable
  pub update_down :
      (s : S) (id : String) (st : JobStatus) (a : Option ℕ)
      → online s ≡ false
      → store.update_job s id st a ≡ err unreachable
  pub delete_down :
      (s : S) (id : String) → online s ≡ false → store.delete_job s id ≡ err unreachable
  pub health : (s : S) → (store.check_health s).status ≡ (if online s then up else down)

-- The job is among those that are handed back.
abbrev pub handed_back : String → List Job → Bool
handed_back id [] = false
handed_back id (job ∷ jobs) = job.id == id || handed_back id jobs
