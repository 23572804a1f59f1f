-- ===== src/Cli/SetupBroker.antt =====
-- packages/core/src/cli/lib/setupBroker.ts: getting a Redis or a RabbitMQ.
use queueway.Base.{
  take, [], digits, ◌∷◌, not, if◌then◌else◌, ◌++◌, false, none, some, codes, ℕ, List, Option, Bool,
}
use queueway.Cli.Detect.{is_port_open, find_free_port}
use queueway.Cli.SetupPostgres.{Setting, owned_name, truthy}
use queueway.Cli.Machine.{
  random_password, env_value, delete_data, confirm, write_compose, choose, ServiceSpec, Wizard,
  done, perform, ◌>>=◌, ◌>>◌, ServiceName, redis, rabbitmq, Choice, existing, docker, back, keep,
  cancel, fresh,
}
use queueway.Cli.Docker.{
  wait_for_port, start_stack, remove_volume, pull_image, container_running, volume_exists,
}

pub data BrokerService : Type 0 where
  redis_service rabbitmq_service : BrokerService

pub record BrokerSetupResult : Type 0 where
  pub url : List ℕ
  pub management_port : Option ℕ

abbrev pub service_name : BrokerService → ServiceName
service_name redis_service = redis
service_name rabbitmq_service = rabbitmq

abbrev pub default_port : BrokerService → ℕ
default_port redis_service = 6379
default_port rabbitmq_service = 5672

abbrev pub rabbitmq_key : List ℕ
rabbitmq_key = codes "QUEUEWAY_RABBITMQ_URL"

abbrev pub seconds_to_boot : BrokerService → ℕ
seconds_to_boot redis_service = 60
seconds_to_boot rabbitmq_service = 150

abbrev pub start_service :
    Setting → BrokerService → ServiceSpec → BrokerSetupResult → Wizard (Option BrokerSetupResult)
start_service s service spec result = do
  perform (write_compose spec s.slug)
  pulled ← pull_image (service_name service)
  if not pulled then done none else (do
    up ← start_stack
    if not up then done none else (do
      ready ← wait_for_port spec.port (seconds_to_boot service)
      done (if ready then some result else none)))

abbrev pub amqp_url : Setting → List ℕ → List ℕ → ℕ → List ℕ
amqp_url s user password port =
    codes "amqp://" ++ user ++ 58 ∷ s.encode password ++ codes "@localhost:" ++ digits 5 port

unfoldable pub start_new : Setting → BrokerService → Wizard (Option BrokerSetupResult)
start_new s redis_service = do
  port ← find_free_port 20 6379
  start_service s redis_service
      (record {
        name = redis;
        port = port;
        extra_port = none;
        user = none;
        password = none;
        database = none;
      })
      (record { url = codes "redis://localhost:" ++ digits 5 port; management_port = none })
start_new s rabbitmq_service = do
  port ← find_free_port 20 5672
  management_port ← find_free_port 20 15672
  password ← perform random_password
  start_service s rabbitmq_service
      (record {
        name = rabbitmq;
        port = port;
        extra_port = some management_port;
        user = some (take 60 (owned_name s));
        password = some password;
        database = none;
      })
      (record {
        url = amqp_url s (take 60 (owned_name s)) password port;
        management_port = some management_port;
      })

abbrev pub found_url : Option (List ℕ) → Option BrokerSetupResult
found_url none = none
found_url (some url) = some (record { url = url; management_port = none })

abbrev pub start_again : Setting → Wizard (Option BrokerSetupResult)
start_again s = do
  confirmed ← perform (confirm (delete_data rabbitmq))
  if not confirmed then done none else remove_volume s.slug rabbitmq >> start_new s rabbitmq_service

abbrev pub with_queues : Setting → Option (List ℕ) → Choice → Wizard (Option BrokerSetupResult)
with_queues s previous cancel = done none
with_queues s previous keep = done (found_url previous)
with_queues s previous _ = start_again s

abbrev pub is_running : Setting → Option (List ℕ) → Wizard Bool
is_running s none = done false
is_running s (some url) = container_running s.slug rabbitmq

unfoldable pub provision_broker : Setting → BrokerService → Wizard (Option BrokerSetupResult)
provision_broker s redis_service = start_new s redis_service
provision_broker s rabbitmq_service = do
  has_volume ← volume_exists s.slug rabbitmq
  if not has_volume then start_new s rabbitmq_service else (do
    saved ← perform (env_value rabbitmq_key)
    running ← is_running s (truthy saved)
    if running then done (found_url (truthy saved)) else (do
      choice ← perform (choose (keep ∷ fresh ∷ cancel ∷ []))
      with_queues s (truthy saved) choice))

abbrev pub existing_url : BrokerService → List ℕ
existing_url redis_service = codes "redis://localhost:6379"
existing_url rabbitmq_service = codes "amqp://localhost:5672"

abbrev pub by_menu : Setting → BrokerService → Bool → Choice → Wizard (Option BrokerSetupResult)
by_menu s service docker_available back = done none
by_menu s service docker_available existing =
    done (some (record { url = existing_url service; management_port = none }))
by_menu s service docker_available _ =
    if not docker_available then done none else provision_broker s service

unfoldable pub setup_broker : Setting → BrokerService → Bool → Wizard (Option BrokerSetupResult)
setup_broker s service docker_available = do
  already_there ← is_port_open (default_port service)
  how ←
      perform (choose (if already_there then existing ∷ docker ∷ back ∷ [] else docker ∷ back ∷ []))
  by_menu s service docker_available how
