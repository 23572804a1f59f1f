-- ===== src/Cli/SetupPostgres/Menu.antt =====
-- packages/core/src/cli/lib/setupPostgres.ts: `setupPostgres`.
use queueway.Base.{not, [], none, some, ℕ, ◌∷◌, Option, if◌then◌else◌, List, Bool}
use queueway.Cli.Detect.{is_port_open}
use queueway.Cli.Machine.{
  ask_admin, choose, Wizard, done, perform, ◌>>=◌, Choice, existing, docker, back,
}
use queueway.Cli.SetupPostgres.{
  admin_login, can_connect, find_admin_silently, provision_in_existing, default_pg_port, Setting,
}
use queueway.Cli.SetupPostgres.Container.{provision_with_docker}

abbrev pub menu : Bool → List Choice
menu already_there = if already_there then existing ∷ docker ∷ back ∷ [] else docker ∷ back ∷ []

abbrev pub with_admin : Setting → Option (List ℕ × Option (List ℕ)) → Wizard (Option (List ℕ))
with_admin s (some admin) = provision_in_existing s admin
with_admin s none = do
  answers ← perform ask_admin
  fine ← can_connect (admin_login (answers.0, some answers.1))
  if not fine then done none else provision_in_existing s (answers.0, some answers.1)

abbrev pub by_choice : Setting → Bool → Choice → Wizard (Option (List ℕ))
by_choice s docker_available back = done none
by_choice s docker_available existing = do admin ← find_admin_silently s; with_admin s admin
by_choice s docker_available _ = if not docker_available then done none else provision_with_docker s

unfoldable pub setup_postgres : Setting → Bool → Wizard (Option (List ℕ))
setup_postgres s docker_available = do
  already_there ← is_port_open default_pg_port
  how ← perform (choose (menu already_there))
  by_choice s docker_available how
