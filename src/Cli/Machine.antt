-- ===== src/Cli/Machine.antt =====
-- packages/core/src/cli: what the setup asks of the user and of the machine. A program of the setup is a
-- tree: a call of something outside, and how it goes on with each answer. inquirer, child_process, net,
-- pg and fs are outside; their answers are the branches.
pub mod Runs
use queueway.Base.{Option, ℕ, List, Bool}
use queueway.Cli.EnvFile.{Ignored}

pub data ServiceName : Type 0 where
  postgres redis rabbitmq : ServiceName

pub record ServiceSpec : Type 0 where
  pub name : ServiceName
  pub port : ℕ
  pub extra_port : Option ℕ
  pub user : Option (List ℕ)
  pub password : Option (List ℕ)
  pub database : Option (List ℕ)

-- What the menus offer.
pub data Choice : Type 0 where
  existing docker back : Choice
  keep fresh cancel : Choice
  retry use_sqlite quit : Choice

pub data BrokerChoice : Type 0 where
  in_memory on_redis on_rabbitmq : BrokerChoice

pub data StoreChoice : Type 0 where
  sqlite on_postgres : StoreChoice

pub data Confirmation : Type 0 where
  start_docker : Confirmation
  delete_data : ServiceName → Confirmation

pub data Command : Type 0 where
  docker_version docker_info docker_image_ls docker_compose_version : Command
  open_docker : Command
  docker_pull : ServiceName → Command
  compose_up : Command
  volume_ls ps : List ℕ → Command
  rm_container volume_rm : List ℕ → Command

pub record Output : Type 0 where
  pub exit_ok : Bool
  pub stdout : List ℕ
  pub stderr : List ℕ

pub record Login : Type 0 where
  pub port : ℕ
  pub user : List ℕ
  pub password : Option (List ℕ)
  pub database : List ℕ

-- The statements that are sent to a PostgreSQL of the user's own.
pub data Statement : Type 0 where
  find_role find_database : List ℕ → Statement
  create_role alter_role create_database : List ℕ → List ℕ → Statement

pub data Effect : Type 0 where
  is_tty has_jobs_file : Effect
  ask_broker ask_store : Effect
  choose : List Choice → Effect
  confirm : Confirmation → Effect
  ask_admin : Effect
  probe : ℕ → Effect
  clock : Effect
  pause : ℕ → Effect
  random_password : Effect
  command : Command → Effect
  file_exists spawn : List ℕ → Effect
  -- `none` once `SELECT 1` has answered, else what the driver says.
  connect_as : Login → Effect
  connect_url : List ℕ → Effect
  open_admin : Login → Effect
  -- Whether rows came back, `none` where it rejected.
  send_query : Statement → Effect
  end_admin : Effect
  env_value : List ℕ → Effect
  write_compose : ServiceSpec → List ℕ → Effect
  write_env : List (List ℕ × List ℕ) → Effect
  ignore_env : Effect
  write_config : BrokerChoice → StoreChoice → Effect
  write_jobs : Effect
  exit_code : ℕ → Effect

abbrev pub Response : Effect → Type 0
Response is_tty = Bool
Response has_jobs_file = Bool
Response ask_broker = BrokerChoice
Response ask_store = StoreChoice
Response (choose cs) = Choice
Response (confirm q) = Bool
Response ask_admin = List ℕ × List ℕ
Response (probe p) = Bool
Response clock = ℕ
Response (pause n) = Unit
Response random_password = List ℕ
Response (command c) = Output
Response (file_exists f) = Bool
Response (spawn f) = Bool
Response (connect_as l) = Option (List ℕ)
Response (connect_url u) = Bool
Response (open_admin l) = Bool
Response (send_query s) = Option Bool
Response end_admin = Unit
Response (env_value k) = Option (List ℕ)
Response (write_compose s slug) = Unit
Response (write_env vars) = Unit
Response ignore_env = Ignored
Response (write_config b s) = Unit
Response write_jobs = Unit
Response (exit_code n) = Unit

pub data Wizard {ℓ} (A : Type ℓ) : Type ℓ where
  done : A → Wizard A
  throw : Wizard A
  step : (c : Effect) → (Response c → Wizard A) → Wizard A

module _ {ℓ κ} {A : Type ℓ} {B : Type κ} where
  infixl 5 ◌>>=◌ ◌>>◌
  abbrev pub ◌>>=◌ : Wizard A → (A → Wizard B) → Wizard B
  ◌>>=◌ (done a) f = f a
  ◌>>=◌ throw f = throw
  ◌>>=◌ (step c k) f = step c (λ r. k r >>= f)

  abbrev pub ◌>>◌ : Wizard A → Wizard B → Wizard B
  ◌>>◌ m n = m >>= (λ _. n)

abbrev pub perform : (c : Effect) → Wizard (Response c)
perform c = step c done
