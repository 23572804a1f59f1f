-- ===== src/Engine/Lifecycle.antt =====
-- Queueway.ts: the constructor's choices, `start` with the loading of job files, the recovery watcher, and
-- `stop`. How the driver's calls end is an argument: a store that initializes, a broker that connects.
pub mod Quiet
use queueway.Base.{
  invalid, ℕ, not_connected, unreachable, true, err, not, ok, [], none, ◌==◌, if◌then◌else◌, some,
  false, ◌∷◌, ◌++◌, Option, String, Result, List, Bool,
}
use queueway.Store.Contract.{IStore}
use queueway.Engine.World.{BrokerTraits, World}
use queueway.Engine.Delivery.{Handler}
use queueway.Engine.Api.{recover_and_publish, stop}
use queueway.Types.{or_else, BrokerType, StoreType}
use queueway.Retry.{retry_manager, RetryManager}

-- Another name falls back to the memory.
abbrev pub create_broker : String → BrokerType
create_broker type =
    if type == "rabbitmq"
    then BrokerType.rabbitmq
    else if type == "redis"
    then BrokerType.redis
    else BrokerType.in_memory

abbrev pub create_store : String → StoreType
create_store type =
    if type == "postgres"
    then StoreType.postgres
    else if type == "sqlite"
    then StoreType.sqlite
    else StoreType.in_memory

pub record RetrySettings : Type 0 where
  pub max_attempts : Option ℕ
  pub base_delay : Option ℕ
  pub max_delay : Option ℕ

-- What the user gives the constructor; a field that is given replaces the default as a whole.
pub record Settings : Type 0 where
  pub broker : Option String
  pub store : Option String
  pub retry : Option RetrySettings

abbrev pub default_retry : RetrySettings
default_retry = record { max_attempts = some 5; base_delay = none; max_delay = none }

abbrev pub managed : RetrySettings → RetryManager
managed retry = retry_manager retry.max_attempts retry.base_delay retry.max_delay

-- The parts of a new engine, and the names that its health report shows.
pub record Parts : Type 0 where
  pub broker : BrokerType
  pub store : StoreType
  pub retry : RetryManager
  pub broker_name : String
  pub store_name : String

unfoldable pub new_queueway : Settings → Parts
new_queueway config =
    let broker = or_else config.broker "in-memory" in
    let store = or_else config.store "in-memory" in
    record {
      broker = create_broker broker;
      store = create_store store;
      retry = managed (or_else config.retry default_retry);
      broker_name = broker;
      store_name = store;
    }

-- What `require` of a file comes to: the events that its function subscribes to and whether it then
-- throws, or no function at all, or an error while it loads.
pub data Module : Type 0 where
  registers : List String → Bool → Module
  no_function load_error : Module

abbrev pub register_from_module : Module → List String → List String
register_from_module (registers events throws) handlers = handlers ++ events
register_from_module no_function handlers = handlers
register_from_module load_error handlers = handlers

abbrev pub load_jobs_entry_file : Option Module → Option Module → List String → List String
load_jobs_entry_file (some js) cjs handlers = register_from_module js handlers
load_jobs_entry_file none (some cjs) handlers = register_from_module cjs handlers
load_jobs_entry_file none none handlers = handlers

abbrev pub load_each : List Module → List String → List String
load_each [] handlers = handlers
load_each (m ∷ ms) handlers = load_each ms (register_from_module m handlers)

-- The scripts of `jobs/` in the order of their names, `none` where there is no such directory.
abbrev pub load_jobs_directory : Option (List Module) → List String → List String
load_jobs_directory none handlers = handlers
load_jobs_directory (some files) handlers = load_each files handlers

pub record JobFiles : Type 0 where
  pub skip : Bool
  pub entry_js : Option Module
  pub entry_cjs : Option Module
  pub directory : Option (List Module)

unfoldable pub load_jobs_file : JobFiles → List String → List String
load_jobs_file files handlers =
    if files.skip
    then handlers
    else load_jobs_directory files.directory
        (load_jobs_entry_file files.entry_js files.entry_cjs handlers)

pub record Runtime (S : Type 0) : Type 0 where
  pub world : World S
  pub handlers : List String
  pub store_open : Bool
  pub connected : Bool
  pub recovery_timer : Bool

-- How the driver's calls end.
pub record Drivers : Type 0 where
  pub initializes : Bool
  pub connects : Bool
  pub disconnects : Bool

module _ {S : Type 0} (store : IStore S) (publish : String → Handler S)
    (traits : BrokerTraits) where
  abbrev pub start_recovery_watcher : Runtime S → Runtime S
  start_recovery_watcher r =
      if r.recovery_timer
      then r
      else if not store.tracks_job_ownership
      then r
      else record r { recovery_timer = true }

  abbrev pub settle_start : Runtime S → Result (Unit {0}) × World S → Result (Unit {0}) × Runtime S
  settle_start r (ok u, w) = (ok tt, start_recovery_watcher (record r { world = w }))
  settle_start r (err e, w) = (err e, record r { world = w })

  unfoldable pub start_engine : Drivers → JobFiles → Runtime S → Result (Unit {0}) × Runtime S
  start_engine d files r =
      if not d.initializes
      then (err unreachable, r)
      else if not d.connects
      then (err not_connected, record r { store_open = true })
      else settle_start
          (record r {
            store_open = true;
            connected = true;
            handlers = load_jobs_file files r.handlers;
          })
          (recover_and_publish store publish traits r.world)

  -- The interval fires.
  unfoldable pub recovery_tick : Runtime S → Runtime S
  recovery_tick r =
      if r.recovery_timer
      then record r { world = (recover_and_publish store publish traits r.world).1 }
      else r

abbrev pub listen :
    {S : Type 0} → Bool → Result (Unit {0}) × Runtime S → Result (Unit {0}) × Runtime S
listen listens (ok _, r) = if listens then (ok tt, r) else (err invalid, r)
listen listens (err e, r) = (err e, r)

-- `start({ withServer: true })`; `listens` is whether the server gets its port.
unfoldable pub start_with_server :
    {S : Type 0}
    → IStore S
    → (String → Handler S)
    → BrokerTraits
    → Drivers
    → JobFiles
    → (listens : Bool) → Runtime S
    → Result (Unit {0}) × Runtime S
start_with_server store publish traits d files listens r =
    listen listens (start_engine store publish traits d files r)

unfoldable pub stop_engine : {S : Type 0} → Drivers → Runtime S → Result (Unit {0}) × Runtime S
stop_engine d r =
    let quiet = record r { recovery_timer = false; world = stop r.world } in
    if not d.disconnects
    then (err not_connected, quiet)
    else (ok tt, record quiet { connected = false; store_open = false })
