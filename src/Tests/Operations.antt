-- ===== src/Tests/Operations.antt =====
-- The operations of the engine at concrete worlds.
use queueway.Base.{List, none, true, false, ◌∷◌, ok, [], some, ◌≡◌, refl}
use queueway.Engine.Lifecycle.{
  Module, Drivers, JobFiles, Runtime, registers, no_function, load_error,
}
use queueway.Store.Postgres.{update_job, get_job, Database, postgres_store}
use queueway.Engine.Api.{delete_job}
use queueway.Store.Memory.{in_memory_store, InMemoryStore}
use queueway.Engine.Delivery.{deliver, requeue}
use queueway.Engine.World.{recover_options, set_status, job_exists, enqueue, World}
use queueway.Types.{failed, retrying, patch, Job}
use queueway.Tests.Deliveries.Setup.{
  acking_traits, found_in, is_online, done, no_wait, saved, inline_traits, contract, defaults,
  start, world,
}
use queueway.Engine.Api.Laws.{deliver-delete_job}
use queueway.Tests.Stores.{job_a, shared}
use queueway.Engine.Api.Outage.{refused_retry_is_stranded}
use queueway.Store.Postgres.Recovery.{recover_lem, recovered_db, recovered_jobs}

abbrev failed_job : World InMemoryStore
failed_job = world (patch failed (some 5) saved ∷ [])

deliver-delete_job_example :
    let w = (delete_job in_memory_store "a" start).1 in
    deliver in_memory_store inline_traits defaults no_wait enqueue "email" done saved w ≡ (ok tt, w)
deliver-delete_job_example =
    (deliver-delete_job contract inline_traits defaults no_wait enqueue "email" done start saved
      saved (is_online start) (found_in start "a" (some saved) refl)).1

abbrev rabbit_world : World Database
rabbit_world = record { store = shared; accepting = false; sent = []; timers = []; handled = [] }

abbrev waiting_job : Job
waiting_job = patch retrying (some 2) job_a

refused_retry_is_stranded_example :
    (requeue (postgres_store "w1") enqueue "email" waiting_job rabbit_world).1.sent ≡ []
unfolding requeue job_exists set_status update_job enqueue get_job
refused_retry_is_stranded_example =
    let after = (requeue (postgres_store "w1") enqueue "email" waiting_job rabbit_world).1 in
    (refused_retry_is_stranded "w1" "w2" acking_traits rabbit_world "email" waiting_job job_a
      (recovered_jobs "w2" (recover_options acking_traits) after.store)
      (recovered_db "w2" (recover_options acking_traits) after.store) refl refl refl refl (refl, tt)
      (recover_lem "w2" after.store (recover_options acking_traits) refl)).0

abbrev drivers : Drivers
drivers = record { initializes = true; connects = true; disconnects = false }

abbrev engine : Runtime InMemoryStore
engine = record {
  world = start;
  handlers = [];
  store_open = false;
  connected = false;
  recovery_timer = false;
}

abbrev modules : List Module
modules = load_error ∷ registers ("sms" ∷ []) true ∷ []

abbrev files : JobFiles
files = record {
  skip = false;
  entry_js = some no_function;
  entry_cjs = none;
  directory = some modules;
}
