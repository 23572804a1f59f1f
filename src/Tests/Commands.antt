-- ===== src/Tests/Commands.antt =====
-- Concrete runs of the setup.
use queueway.Cli.Machine.{
  redis, postgres, ServiceSpec, ServiceName, Effect, exit_code, write_jobs, write_config,
  ignore_env, write_env, write_compose, env_value, end_admin, file_exists, random_password,
  ask_admin, ask_store, ask_broker, has_jobs_file, is_tty, clock, pause, probe, choose, confirm,
  command, spawn, send_query, open_admin, connect_url, connect_as, Choice, Output, docker, keep,
  fresh, on_rabbitmq, sqlite,
}
use queueway.Base.{
  trim_end, is_empty, ◌&&◌, arith, not, Bool, text_eq, split_lines, ◌+◌, ◌++◌, nat_eq, ℕ,
  is_space_code, ◌≡◌, List, refl, codes, true, false, none, some, [], ◌∷◌,
}
use queueway.Cli.EnvFile.{
  is_meta, squash_end, assigns, upsert_one, upsert_all, Project, already, upsert_env,
  read_env_value,
}
use queueway.Cli.EnvFile.RoundTrip.{read-upsert_env, assigned}
use queueway.Cli.EnvFile.Naming.{project_slug, project_slug-IsIdentifier, IsIdentifier}
use queueway.Cli.Detect.{linux}
use queueway.Cli.Machine.Runs.{called, Event, run, Outside, Kept}
use queueway.Cli.Init.Rules.{Allowed}
use queueway.Cli.SetupPostgres.{quote_literal, Setting}
use queueway.Cli.Waiting.{wait_for_port_enough, Ticks}
use queueway.Cli.Quoting.{read_literal, read-quote_literal}
use queueway.Cli.Init.{init}
use queueway.Cli.Init.Outcome.{init_keeps_rules}
use queueway.Cli.EnvFile.Trimming.{IsLine}
use queueway.Cli.EnvFile.Reading.{IsPlain}
use queueway.Cli.Docker.{service_text, wait_rounds, wait_for_port}
use queueway.Cli.Daemon.{Host, PidFileInfo}
use queueway.Cli.Compose.{
  part_name, has_colon, drop_chars, without_last, compose_text, existing_blocks, with_specs,
  write_compose_file,
}
use queueway.Cli.ServiceBlock.{service_block}
use queueway.Cli.Compose.Collecting.{IsNamed, starts_space, Service, blocks_of}
use queueway.Cli.Compose.ReadBack.{read-compose_text}

abbrev app : Project
app = record {
  env = some (codes "# the app\r\n QUEUEWAY_DATABASE_URL = \"old\"\nPORT=3000\n\n\n\n");
  gitignore = some (codes "node_modules");
  has_git = true;
}

abbrev vars : List (List ℕ × List ℕ)
vars =
    (codes "QUEUEWAY_DATABASE_URL", codes "postgres://a")
    ∷ (codes "QUEUEWAY_REDIS_URL", codes "redis://b")
    ∷ []

-- For a key that is no plain text the lines are asked one by one; here none assigns it.
abbrev no_regex : List ℕ → List ℕ → Bool
no_regex key line = false

upsert_env_runs :
    (upsert_env no_regex vars app).1.env
    ≡ some (
        codes
          "# the app\nQUEUEWAY_DATABASE_URL=postgres://a\nPORT=3000\n\n\n\n\nQUEUEWAY_REDIS_URL=redis://b\n")
unfolding upsert_env upsert_all upsert_one assigns squash_end is_space_code split_lines text_eq
upsert_env_runs = refl

abbrev is_plain : List ℕ → Bool
is_plain [] = true
is_plain (c ∷ s) = not (is_space_code c) && not (nat_eq c 61) && not (is_meta c) && is_plain s

none_of :
    (a b c d : Bool)
    → (not a && not b && not c && d) ≡ true
    → ((a ≡ false) × (b ≡ false) × (c ≡ false)) × (d ≡ true)
none_of false false false true h = ((refl, refl, refl), refl)
none_of _ _ _ _ h = ground arith

is_plain-IsPlain : (s : List ℕ) → is_plain s ≡ true → IsPlain s
is_plain-IsPlain [] h = tt
is_plain-IsPlain (c ∷ s) h =
    let (here, rest) = none_of (is_space_code c) (nat_eq c 61) (is_meta c) (is_plain s) h in
    (here, is_plain-IsPlain s rest)

abbrev is_line : List ℕ → Bool
is_line [] = true
is_line (c ∷ s) = not (nat_eq c 10) && is_line s

is_line-IsLine : (s : List ℕ) → is_line s ≡ true → IsLine s
is_line-IsLine [] h = tt
is_line-IsLine (c ∷ s) h = (ground (arith, h), is_line-IsLine s (ground (arith, h)))

read-upsert_env_example :
    read_env_value no_regex (codes "PORT") (upsert_env no_regex vars app).1
    ≡ assigned (codes "PORT") vars (read_env_value no_regex (codes "PORT") app)
unfolding is_space_code
read-upsert_env_example =
    read-upsert_env no_regex vars app (codes "PORT") refl
      (
        (
          (refl, is_plain-IsPlain (codes "QUEUEWAY_DATABASE_URL") refl),
          (refl, is_line-IsLine (codes "postgres://a") refl),
        ),
        (
          (
            (refl, is_plain-IsPlain (codes "QUEUEWAY_REDIS_URL") refl),
            (refl, is_line-IsLine (codes "redis://b") refl),
          ),
          tt,
        ),
      )
      (refl, is_plain-IsPlain (codes "PORT") refl)

project_slug_runs :
    project_slug (λ s. s) (codes "folder") (some (codes "@acme/2nd--shop.js"))
    ≡ codes "p2nd_shop_js"
unfolding project_slug
project_slug_runs = refl

project_slug-IsIdentifier_example : IsIdentifier (project_slug (λ s. s) (codes "---") none)
project_slug-IsIdentifier_example = project_slug-IsIdentifier (λ s. s) (codes "---") none

abbrev here : Setting
here = record {
  platform = linux;
  desktop = [];
  slug = codes "shop";
  os_user = codes "me";
  parse_url = λ url. none;
  encode = λ s. s;
  decode = λ s. some s;
  lower = λ s. s;
}

abbrev choice_for : List Choice → Choice
choice_for (keep ∷ cs) = fresh
choice_for _ = docker

abbrev spent : Effect → ℕ
spent (pause n) = n
spent _ = 0

abbrev time_of : List Event → ℕ
time_of [] = 0
time_of (called c r ∷ h) = spent c + time_of h

abbrev fine : Output
fine = record { exit_ok = true; stdout = codes "it"; stderr = [] }

-- A user who starts afresh with RabbitMQ, where only the port 5432 is taken and a pause takes its time.
abbrev asked_now : Outside
asked_now h is_tty = true
asked_now h has_jobs_file = false
asked_now h ask_broker = on_rabbitmq
asked_now h ask_store = sqlite
asked_now h (choose cs) = choice_for cs
asked_now h (confirm q) = true
asked_now h ask_admin = ([], [])
asked_now h (probe p) = nat_eq p 5432
asked_now h clock = time_of h
asked_now h (pause n) = tt
asked_now h random_password = codes "secret"
asked_now h (command c) = fine
asked_now h (file_exists f) = false
asked_now h (spawn f) = false
asked_now h (connect_as l) = none
asked_now h (connect_url u) = true
asked_now h (open_admin l) = true
asked_now h (send_query s) = some false
asked_now h end_admin = tt
asked_now h (env_value k) = none
asked_now h (write_compose s slug) = tt
asked_now h (write_env written) = tt
asked_now h ignore_env = already
asked_now h (write_config b s) = tt
asked_now h write_jobs = tt
asked_now h (exit_code n) = tt

init_keeps_rules_example : Kept (Allowed (codes "shop")) (run asked_now [] (init here)).1
init_keeps_rules_example = init_keeps_rules here asked_now

asked_now-Ticks : Ticks asked_now
asked_now-Ticks = ((λ h c r. omega arith), λ h n. omega arith)

wait_for_port_enough_example :
    run asked_now [] (wait_for_port 5000 2)
    ≡ run asked_now (called clock 0 ∷ []) (wait_rounds 8 2000 5000)
wait_for_port_enough_example =
    wait_for_port_enough asked_now 5000 2 7 [] asked_now-Ticks (omega arith)

read-quote_literal_example :
    read_literal 39 (quote_literal (codes "it's'") ++ codes ";") ≡ some (codes "it's'", codes ";")
read-quote_literal_example = read-quote_literal (codes "it's'") (codes ";") refl

abbrev server : PidFileInfo
server = record { pid = 7; port = 4287; started_at = 0 }

abbrev with_server : Host
with_server = record { pid_file = some server; alive = 7 ∷ 8 ∷ []; signalled = [] }

-- The process ends while the command waits.
abbrev ends_meanwhile : Host → Host
ends_meanwhile h = record h { alive = 8 ∷ [] }

abbrev spec_of : ServiceName → ServiceSpec
spec_of service = record {
  name = service;
  port = 5433;
  extra_port = some 15672;
  user = some (codes "me");
  password = some (codes "pw");
  database = some (codes "db");
}

abbrev with_postgres : List ℕ
with_postgres = write_compose_file (spec_of postgres ∷ []) (codes "shop") none

-- What was written is read back, and Redis is added behind it.
write_compose_file_runs :
    (existing_blocks (some with_postgres)
      ≡ (codes "postgres", service_block (spec_of postgres) (codes "shop")) ∷ [])
    × (existing_blocks
          (some (write_compose_file (spec_of redis ∷ []) (codes "shop") (some with_postgres)))
        ≡ (codes "postgres", service_block (spec_of postgres) (codes "shop"))
          ∷ (codes "redis", service_block (spec_of redis) (codes "shop"))
          ∷ [])
unfolding write_compose_file existing_blocks service_block compose_text with_specs is_space_code
    text_eq
write_compose_file_runs = (refl, refl)

abbrev as_service : ServiceName → Service
as_service name =
    (service_text name, without_last (drop_chars 2 (service_block (spec_of name) (codes "shop"))))

abbrev two_services : List Service
two_services = as_service postgres ∷ as_service redis ∷ []

abbrev is_named :
    (name text : List ℕ)
    → is_empty name ≡ false
    → starts_space text ≡ false
    → trim_end text ≡ text
    → has_colon text ≡ true
    → part_name text ≡ name
    → IsNamed name text
is_named name text a b c d e = record { named = a; starts = b; ends = c; colon = d; names = e }

read-compose_text_example :
    existing_blocks (some (compose_text (codes "shop") (blocks_of two_services)))
    ≡ blocks_of two_services
unfolding service_block is_space_code text_eq
read-compose_text_example =
    read-compose_text (codes "shop") two_services (refl, (refl, (refl, (refl, tt))))
      ((refl, refl), ((refl, refl), tt))
      (
        is_named _ _ refl refl refl refl refl,
        tt,
        (is_named _ _ refl refl refl refl refl, (refl, tt), tt),
      )
      refl
