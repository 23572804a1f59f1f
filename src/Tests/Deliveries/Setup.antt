-- ===== src/Tests/Deliveries/Setup.antt =====
-- A world with one job, and handlers that return or throw.
use queueway.Store.Memory.{update_job, job_key, in_memory_store, InMemoryStore}
use queueway.Broker.Memory.Deliveries.{Holds, Rests, Returns, Throws}
use queueway.Base.{
  ◌<◌, ◌≤◌, ltb, lt→ltb, le→ltb, if◌then◌else◌, ◌∙◌, thrown, ◌&&◌, Option, ◌∷◌, none, ok, [],
  String, err, false, some, ◌≡◌, true, List, ℕ, refl,
}
use queueway.Engine.Delivery.{Handler}
use queueway.Types.{patch, processing, pending, Job}
use queueway.Engine.World.{BrokerTraits, set_status, World}
use queueway.Retry.{retry_manager, RetryManager}
use queueway.Store.Contract.{IsStore}
use queueway.Engine.Delivery.Outcomes.{marked}
use queueway.Engine.Delivery.Paths.{Runs}
use queueway.Store.Table.{find}
use queueway.Store.Memory.Laws.{in_memory_store-IsStore}
use queueway.Store.Sqlite.{SqliteStore}

abbrev pub saved : Job
saved = record {
  id = "a";
  event_name = "email";
  payload = "{}";
  status = pending;
  attempts = 0;
  created_at = 5;
}

abbrev pub contract : IsStore in_memory_store
contract = (in_memory_store-IsStore).0

abbrev pub world : List Job → World InMemoryStore
world jobs = record {
  store = record { jobs = jobs };
  accepting = true;
  sent = [];
  timers = [];
  handled = [];
}

abbrev pub start : World InMemoryStore
start = world (saved ∷ [])

abbrev pub done : Handler InMemoryStore
done job w = (ok tt, w)

abbrev pub throws : Handler InMemoryStore
throws job w = (err thrown, w)

abbrev pub no_wait : ℕ → World InMemoryStore → World InMemoryStore
no_wait _ w = w

-- Somebody deletes the job during a wait.
abbrev pub deleted_meanwhile : ℕ → World InMemoryStore → World InMemoryStore
deleted_meanwhile _ w = record w { store = record { jobs = [] } }

abbrev pub inline_traits : BrokerTraits
inline_traits = record {
  retains_pending_jobs = true;
  guarantees_redelivery = false;
  acknowledges_delivery = false;
}

abbrev pub acking_traits : BrokerTraits
acking_traits = record {
  retains_pending_jobs = true;
  guarantees_redelivery = true;
  acknowledges_delivery = true;
}

abbrev pub defaults : RetryManager
defaults = retry_manager none none none

abbrev pub once : RetryManager
once = retry_manager (some 1) none none

pub is_online : (w : World InMemoryStore) → contract.online w.store ≡ true
is_online w = (in_memory_store-IsStore).2 w.store

pub found_in :
    (w : World InMemoryStore) (id : String) (r : Option Job)
    → find job_key id w.store.jobs ≡ r
    → contract.find w.store id ≡ r
found_in w id r e = (in_memory_store-IsStore).1 w.store id ∙ e

pub runs :
    (traits : BrokerTraits) (retry : RetryManager)
    (sleep : ℕ → World InMemoryStore → World InMemoryStore)
    (publish : String → Handler InMemoryStore) (handler : Handler InMemoryStore)
    → (traits.guarantees_redelivery && false) ≡ false
    → Runs contract traits retry sleep publish "email" handler saved start
runs traits retry sleep publish handler e =
    (saved, is_online start, found_in start "a" (some saved) refl, e)

-- The world in which the handler of a delivery from `start` runs, and the one after a backoff.
abbrev pub running : World InMemoryStore
running = record (marked contract "a" processing 0 start) { handled = saved ∷ [] }

pub found_running : contract.find running.store "a" ≡ some (patch processing (some 0) saved)
unfolding set_status update_job
found_running = found_in running "a" (some (patch processing (some 0) saved)) refl

-- The SQLite file is away while the broker holds a job.
abbrev pub unreachable_world : World SqliteStore
unreachable_world = record {
  store = record { online = false; rows = saved ∷ [] };
  accepting = true;
  sent = ("email", saved) ∷ [];
  timers = [];
  handled = [];
}

-- A handler that throws until so many attempts of the job have failed.
abbrev pub flaky : ℕ → Handler InMemoryStore
flaky k job w = (if ltb job.attempts k then err thrown else ok tt, w)

pub flaky-Throws : (k : ℕ) (j : Job) → j.attempts < k → Throws contract (flaky k) j
flaky-Throws k j h = λ r n w held. (thrown, rw (lt→ltb _ _ h) refl, held)

pub flaky-Returns : (k : ℕ) (j : Job) → k ≤ j.attempts → Returns contract (flaky k) j
flaky-Returns k j h = λ r n w held. (rw (le→ltb _ _ h) refl, held)

pub starts : Holds contract "a" saved 0 start
starts = (is_online start, found_in start "a" (some saved) refl, refl)

pub rests : Rests contract no_wait
rests = λ d id r n w held. held
