-- ===== src/Tests/Workers.antt =====
-- A worker on RabbitMQ, and one on the in-memory broker, with the SQLite store: concrete runs with a
-- crash and a restart.
use queueway.Broker.Memory.{Subscriptions, in_memory_traits}
use queueway.Broker.Memory.Restarting.{law, publishing, start_finishes}
use queueway.Broker.Memory.Settled.{Patient}
use queueway.Broker.Memory.Settling.{Subscribed}
use queueway.Store.Table.{find}
use queueway.Store.Sqlite.{row_key}
use queueway.Engine.World.{World}
use queueway.Engine.Api.{recover_and_publish}
use queueway.Types.{processing}
use queueway.Base.{false, ok, ℕ, ◌≡◌, ◌∷◌, [], err, some, thrown, true, refl, List}
use queueway.Types.{Job, retrying, patch}
use queueway.Retry.{should_retry}
use queueway.Store.Sqlite.{SqliteStore, get_job, save_job, sqlite_store, update_job}
use queueway.Store.Sqlite.Laws.{sqlite_store-IsStore}
use queueway.Engine.World.{
  implies, is_unfinished, already_finished, enqueue, job_exists, set_status,
}
use queueway.Engine.Delivery.{Handler, deliver as deliver_job, on_failure, schedule_retry}
use queueway.Engine.Api.{new_job, publish_job, stop}
use queueway.Broker.RabbitMq.{deliver}
use queueway.Broker.RabbitMq.Worker.{
  Event, Node, after_handler, crashes, delivers, publishes, restarts, run, step,
}
use queueway.Broker.RabbitMq.Keeping.{IsSound, is_open, nobody, waits}
use queueway.Broker.RabbitMq.Keeping.Recovery.{sqlite_store-Recovers}
use queueway.Broker.RabbitMq.Safekeeping.{nothing_is_lost}
use queueway.Tests.Deliveries.Setup.{defaults}

abbrev fresh : Node SqliteStore
fresh = record {
  world = record {
    store = record { online = true; rows = [] };
    accepting = true;
    sent = [];
    timers = [];
    handled = [];
  };
  dead = [];
}

fresh-IsSound : IsSound law nobody fresh.world
fresh-IsSound =
    let (_, view, up, _) = sqlite_store-IsStore in
    record {
      up = up fresh.world.store;
      accepts = refl;
      keyed = λ id r e. cc (view fresh.world.store id, e);
      queued = λ id r e o. cc (view fresh.world.store id, e);
    }

abbrev throws : Handler SqliteStore
throws job w = (err thrown, w)

-- The worker dies in the handler of the first delivery; the second one fails.
abbrev day : List (Event SqliteStore)
day = publishes "a" 5 "email" "{}" ∷ crashes after_handler 0 throws ∷ delivers 0 throws ∷ []

abbrev job_a : Job
job_a = new_job "a" 5 "email" "{}"

day_ends_retrying :
    (run sqlite_store defaults day fresh).world.store.rows ≡ patch retrying (some 1) job_a ∷ []
unfolding run step publish_job save_job enqueue deliver deliver_job job_exists already_finished
    set_status get_job update_job on_failure schedule_retry should_retry stop
day_ends_retrying = refl

nothing_is_lost_example :
    let end = run sqlite_store defaults day fresh in
    let next = step sqlite_store defaults restarts end in
    (implies is_open (law.find end.world.store "a") (waits "a" end.world.sent) ≡ true)
    × (implies is_unfinished (law.find next.world.store "a") (waits "a" next.world.sent) ≡ true)
    × (end.dead ≡ [])
nothing_is_lost_example =
    nothing_is_lost law sqlite_store-Recovers defaults day fresh fresh-IsSound
      ((sqlite_store-IsStore).1 fresh.world.store "a", (λ out job w s. s, (λ out job w s. s, tt)))
      "a"

-- The same file, opened with the in-memory broker after a crash: one job waits, another one was run.
abbrev left_behind : World SqliteStore
left_behind = record fresh.world {
  store = record {
    online = true;
    rows = job_a ∷ patch processing (some 3) (new_job "b" 6 "email" "{}") ∷ [];
  };
}

abbrev one_handler : Subscriptions SqliteStore
one_handler = record { entries = ("email", throws) ∷ [] }

abbrev no_wait : ℕ → World SqliteStore → World SqliteStore
no_wait _ w = w

patient : Patient law no_wait
patient = λ todo d w s. s

subscribed : Subscribed law one_handler "email"
subscribed = (throws, [], refl, (λ todo job w s. s, tt))

start_finishes_example :
    let p =
      recover_and_publish sqlite_store
        (publishing defaults no_wait patient one_handler)
        in_memory_traits
        left_behind in
    (p.0 ≡ ok tt) × (implies is_unfinished (find row_key "b" p.1.store.rows) false ≡ true)
start_finishes_example =
    start_finishes defaults no_wait patient one_handler left_behind "b" refl
      (subscribed, (subscribed, tt))
