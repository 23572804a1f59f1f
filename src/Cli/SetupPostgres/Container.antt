-- ===== src/Cli/SetupPostgres/Container.antt =====
-- packages/core/src/cli/lib/setupPostgres.ts: a PostgreSQL container, with what a setup before it left.
use queueway.Base.{
  zero, [], ◌∷◌, true, not, take, suc, if◌then◌else◌, none, some, List, false, ℕ, Option, Bool,
}
use queueway.Cli.Detect.{find_free_port}
use queueway.Cli.Machine.{
  pause, connect_url, delete_data, random_password, choose, write_compose, confirm, env_value,
  ServiceSpec, Login, Wizard, done, perform, ◌>>=◌, ◌>>◌, postgres, Choice, keep, cancel, fresh,
}
use queueway.Cli.SetupPostgres.{
  truthy, url_for, owned_name, spec_from_url, database_key, can_connect, default_pg_port, Setting,
}
use queueway.Cli.Docker.{
  container_running, start_stack, remove_volume, volume_exists, wait_for_port, pull_image,
}

-- Up to twenty tries, a second and a half apart.
abbrev pub retry_url : ℕ → List ℕ → Wizard Bool
retry_url zero url = done false
retry_url (suc tries) url = do
  works ← perform (connect_url url)
  if works then done true else perform (pause 1500) >> retry_url tries url

abbrev pub retry_login : ℕ → Login → Wizard Bool
retry_login zero login = done false
retry_login (suc tries) login = do
  fine ← can_connect login
  if fine then done true else perform (pause 1500) >> retry_login tries login

abbrev pub url_works : Option (List ℕ) → Wizard Bool
url_works none = done false
url_works (some url) = perform (connect_url url)

abbrev pub redeclare : Setting → Option ServiceSpec → Wizard {0} Unit
redeclare s none = done tt
redeclare s (some spec) = perform (write_compose spec s.slug)

abbrev pub answers_on : ℕ → List ℕ → Bool → Wizard Bool
answers_on port url false = done false
answers_on port url true = do
  taken ← wait_for_port port 90
  if taken then retry_url 20 url else done false

abbrev pub keep_data : Setting → Option (List ℕ) → Option ServiceSpec → Wizard (Option (List ℕ))
keep_data s (some url) (some spec) = do
  perform (write_compose spec s.slug)
  up ← start_stack
  works ← answers_on spec.port url up
  done (if works then some url else none)
keep_data s _ _ = done none

abbrev pub new_login : Setting → ℕ → List ℕ → Login
new_login s port password = record {
  port = port;
  user = take 60 (owned_name s);
  password = some password;
  database = take 60 (owned_name s);
}

abbrev pub new_spec : Login → ServiceSpec
new_spec login = record {
  name = postgres;
  port = login.port;
  extra_port = none;
  user = some login.user;
  password = login.password;
  database = some login.database;
}

-- From the container's start to the first login that it takes.
abbrev pub bring_up : Login → Wizard Bool
bring_up login = do
  pulled ← pull_image postgres
  if not pulled then done false else (do
    up ← start_stack
    if not up then done false else (do
      taken ← wait_for_port login.port 90
      if taken then retry_login 20 login else done false))

unfoldable pub start_container : Setting → Wizard (Option (List ℕ))
start_container s = do
  port ← find_free_port 20 default_pg_port
  password ← perform random_password
  perform (write_compose (new_spec (new_login s port password)) s.slug)
  ready ← bring_up (new_login s port password)
  done (
      if ready
      then some (url_for s (take 60 (owned_name s)) password port (take 60 (owned_name s)))
      else none)

abbrev pub start_fresh : Setting → Wizard (Option (List ℕ))
start_fresh s = do
  confirmed ← perform (confirm (delete_data postgres))
  if not confirmed then done none else remove_volume s.slug postgres >> start_container s

abbrev pub with_data : Setting → Option (List ℕ) → Choice → Wizard (Option (List ℕ))
with_data s url cancel = done none
with_data s url keep = keep_data s url (spec_of_saved s url)
  where
    spec_of_saved : Setting → Option (List ℕ) → Option ServiceSpec
    spec_of_saved s none = none
    spec_of_saved s (some url) = spec_from_url s url
with_data s url _ = start_fresh s

abbrev pub set_up_again : Setting → Option (List ℕ) → Wizard (Option (List ℕ))
set_up_again s url = do
  has_volume ← volume_exists s.slug postgres
  if has_volume
      then (do choice ← perform (choose (keep ∷ fresh ∷ cancel ∷ [])); with_data s url choice)
      else start_container s

abbrev pub reuse : Setting → Option (List ℕ) → Wizard (Option (List ℕ))
reuse s none = done none
reuse s (some url) = do redeclare s (spec_from_url s url); done (some url)

unfoldable pub provision_with_docker : Setting → Wizard (Option (List ℕ))
provision_with_docker s = do
  saved ← perform (env_value database_key)
  up ← container_running s.slug postgres
  works ← if up then url_works (truthy saved) else done false
  if works then reuse s (truthy saved) else set_up_again s (truthy saved)
