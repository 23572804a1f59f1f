-- ===== src/Cli/Init.antt =====
-- packages/core/src/cli/commands/init.ts: `queueway init`. What it prints is left out; a `return` of the
-- source is the end of the tree.
pub mod Rules
pub mod Steps
pub mod OwnServers
pub mod Databases
pub mod DockerFound
pub mod Planning
pub mod Outcome
pub mod Brokers
use queueway.Base.{
  digits, ◌++◌, ◌∷◌, [], not, ◌||◌, codes, some, none, ◌&&◌, ℕ, true, false, Option, if◌then◌else◌,
  List, Bool,
}
use queueway.Cli.EnvFile.{all_owned}
use queueway.Cli.Detect.{
  DockerWaitResult, detect_docker, wait_for_docker_daemon, try_start_docker_desktop, Platform,
  linux, DockerStatus, no_docker,
}
use queueway.Cli.SetupPostgres.{database_key, Setting, truthy}
use queueway.Cli.SetupPostgres.Menu.{setup_postgres}
use queueway.Cli.SetupBroker.{
  rabbitmq_key, rabbitmq_service, redis_service, BrokerSetupResult, setup_broker,
}
use queueway.Cli.Machine.{
  ignore_env, write_jobs, exit_code, write_env, has_jobs_file, choose, start_docker, write_config,
  ask_store, is_tty, ask_broker, confirm, Wizard, done, throw, perform, ◌>>=◌, ◌>>◌, Choice, retry,
  quit, use_sqlite, BrokerChoice, in_memory, on_redis, on_rabbitmq, StoreChoice, sqlite,
  on_postgres,
}

-- The environment variables, the broker and the store that the answers have come to.
pub record Plan : Type 0 where
  pub env : List (List ℕ × List ℕ)
  pub broker : BrokerChoice
  pub store : StoreChoice

abbrev pub is_multi : BrokerChoice → Bool
is_multi in_memory = false
is_multi _ = true

abbrev pub needs_postgres : StoreChoice → Bool
needs_postgres sqlite = false
needs_postgres on_postgres = true

abbrev pub store_for : BrokerChoice → Wizard StoreChoice
store_for broker = if is_multi broker then done on_postgres else perform ask_store

abbrev pub is_linux : Platform → Bool
is_linux linux = true
is_linux _ = false

abbrev pub if_ready : DockerStatus → DockerWaitResult → Wizard DockerStatus
if_ready status result = done (if result.ready then record status { daemon = true } else status)

abbrev pub if_started : Setting → DockerStatus → Bool → Wizard DockerStatus
if_started s status started =
    if not started
    then done status
    else (do result ← wait_for_docker_daemon s.lower; if_ready status result)

abbrev pub wait_for_desktop : Setting → DockerStatus → Wizard DockerStatus
wait_for_desktop s status = do
  wanted ← perform (confirm start_docker)
  if not wanted
      then done status
      else (do started ← try_start_docker_desktop s.platform s.desktop; if_started s status started)

abbrev pub if_stopped : Setting → DockerStatus → Wizard DockerStatus
if_stopped s status =
    if status.cli && not status.daemon
    then (if is_linux s.platform then done status else wait_for_desktop s status)
    else done status

unfoldable pub resolve_docker : Setting → Wizard DockerStatus
resolve_docker s = do status ← detect_docker; if_stopped s status

abbrev pub store_plan : BrokerChoice → Option (List ℕ) → Option Plan
store_plan broker none = none
store_plan broker (some url) =
    some (record { env = (database_key, url) ∷ []; broker = broker; store = on_postgres })

abbrev pub without_postgres : Setting → Bool → BrokerChoice → Choice → Wizard (Option Plan)
without_postgres s ready broker quit = done none
without_postgres s ready broker retry = do
  url ← setup_postgres s ready
  done (store_plan broker (truthy url))
without_postgres s ready broker _ =
    done (some (record { env = []; broker = in_memory; store = sqlite }))

abbrev pub with_url : Setting → Bool → BrokerChoice → Option (List ℕ) → Wizard (Option Plan)
with_url s ready broker (some url) = done (store_plan broker (some url))
with_url s ready broker none = do
  next ← perform (choose (retry ∷ use_sqlite ∷ quit ∷ []))
  without_postgres s ready broker next

-- The store, `none` where the setup ends.
unfoldable pub plan_store : Setting → Bool → BrokerChoice → StoreChoice → Wizard (Option Plan)
plan_store s ready broker sqlite =
    done (some (record { env = []; broker = broker; store = sqlite }))
plan_store s ready broker on_postgres = do
  url ← setup_postgres s ready
  with_url s ready broker (truthy url)

abbrev pub redis_key : List ℕ
redis_key = codes "QUEUEWAY_REDIS_URL"

abbrev pub management_key : List ℕ
management_key = codes "QUEUEWAY_RABBITMQ_MANAGEMENT_URL"

abbrev pub management_var : Option ℕ → List (List ℕ × List ℕ)
management_var none = []
management_var (some port) = (management_key, codes "http://localhost:" ++ digits 5 port) ∷ []

abbrev pub with_broker : Plan → List ℕ → Option BrokerSetupResult → Wizard (Option Plan)
with_broker plan key none = do perform (exit_code 1); done none
with_broker plan key (some result) = done (
    some
      (record plan { env = plan.env ++ (key, result.url) ∷ management_var result.management_port }))

abbrev pub broker_of : Setting → Bool → Plan → BrokerChoice → Wizard (Option Plan)
broker_of s ready plan in_memory = done (some plan)
broker_of s ready plan on_redis = do
  result ← setup_broker s redis_service ready
  with_broker plan redis_key result
broker_of s ready plan on_rabbitmq = do
  result ← setup_broker s rabbitmq_service ready
  with_broker plan rabbitmq_key result

unfoldable pub plan_broker : Setting → Bool → Option Plan → Wizard (Option Plan)
plan_broker s ready none = done none
plan_broker s ready (some plan) = broker_of s ready plan plan.broker

-- The guard of `upsertEnv`.
abbrev pub save_env : List (List ℕ × List ℕ) → Wizard {0} Unit
save_env [] = done tt
save_env (v ∷ vars) =
    if all_owned (v ∷ vars)
    then perform (write_env (v ∷ vars)) >> perform ignore_env >> done tt
    else throw

unfoldable pub write_plan : Option Plan → Wizard {0} Unit
write_plan none = done tt
write_plan (some plan) = do
  save_env plan.env
  perform (write_config plan.broker plan.store)
  found ← perform has_jobs_file
  if found then done tt else perform write_jobs

abbrev pub plan_all : Setting → Bool → BrokerChoice → StoreChoice → Wizard (Option Plan)
plan_all s ready broker store = do
  planned ← plan_store s ready broker store
  plan_broker s ready planned

abbrev pub docker_ready : DockerStatus → Bool
docker_ready status = status.daemon && status.compose

abbrev pub with_docker : Setting → BrokerChoice → StoreChoice → DockerStatus → Wizard {0} Unit
with_docker s broker store status = do
  plan ← plan_all s (docker_ready status) broker store
  write_plan plan

abbrev pub set_up_with : Setting → BrokerChoice → StoreChoice → Wizard {0} Unit
set_up_with s broker store = do
  status ← if needs_postgres store || is_multi broker then resolve_docker s else done no_docker
  with_docker s broker store status

unfoldable pub ask_and_write : Setting → Wizard {0} Unit
ask_and_write s = do
  broker ← perform ask_broker
  store ← store_for broker
  set_up_with s broker store

unfoldable pub init : Setting → Wizard {0} Unit
init s = do tty ← perform is_tty; if not tty then perform (exit_code 1) else ask_and_write s
