-- ===== src/Cli/Launch.antt =====
-- packages/core/src/cli/commands/start.ts: what the server's process is told by the watchdog; and
-- cli/lib/detect.ts: the hints on installing.
use queueway.Base.{
  inr, inl, Bool-cases, ◌≡◌, refl, Bool, not, ◌&&◌, String, Option, none, some, is_some, List, [],
  ◌∷◌, if◌then◌else◌,
}
use queueway.Types.{or_else}
use queueway.Auth.Credentials.{present}
use queueway.Cli.Detect.{Platform, win32, darwin}

abbrev config_filenames : List String
config_filenames = "queueway.config.js" ∷ "queueway.config.cjs" ∷ []

abbrev jobs_filenames : List String
jobs_filenames = "queueway.jobs.js" ∷ "queueway.jobs.cjs" ∷ []

-- The project's folder: the full path of a name, which paths exist, and which are directories.
pub record Folder : Type 0 where
  pub resolve : String → String
  pub exists : String → Bool
  pub is_directory : String → Bool

-- The variables for the server, and whether the two notices are shown.
pub record Launch : Type 0 where
  pub config_path : String
  pub no_config : Bool
  pub no_jobs : Bool

module _ (f : Folder) where
  unfoldable pub find_file : List String → Option String
  find_file [] = none
  find_file (name ∷ names) =
      let rest = find_file names in
      if f.exists (f.resolve name) then some (f.resolve name) else rest

  unfoldable pub has_jobs_directory : Bool
  has_jobs_directory = f.exists (f.resolve "jobs") && f.is_directory (f.resolve "jobs")

  unfoldable pub prepare_launch : Launch
  prepare_launch = record {
    config_path = or_else (find_file config_filenames) "";
    no_config = not (is_some (find_file config_filenames));
    no_jobs = not (is_some (find_file jobs_filenames)) && not has_jobs_directory;
  }

  find_file-present :
      (names : List String)
      → ((name : String) → present (some (f.resolve name)) ≡ some (f.resolve name))
      → present (some (or_else (find_file names) "")) ≡ find_file names
  unfolding find_file
  find_file-present [] h = refl
  find_file-present (name ∷ names) h = elim (Bool-cases (f.exists (f.resolve name))) [
    | inl e ↦ rw e (h name)
    | inr e ↦ rw e (find_file-present names h)
  ]

unfoldable pub docker_install_hint : Platform → String
docker_install_hint win32 =
    "   Install Docker Desktop:\n     winget install Docker.DockerDesktop\n   or download it from https://docker.com/products/docker-desktop"
docker_install_hint darwin =
    "   Install Docker Desktop:\n     brew install --cask docker\n   or download it from https://docker.com/products/docker-desktop"
docker_install_hint _ =
    "   Install Docker Engine:\n     curl -fsSL https://get.docker.com | sudo sh\n     sudo usermod -aG docker $USER    # then log out and back in\n   Details: https://docs.docker.com/engine/install/"

unfoldable pub postgres_install_hint : Platform → String
postgres_install_hint win32 = "     winget install PostgreSQL.PostgreSQL.16"
postgres_install_hint darwin =
    "     brew install postgresql@16 && brew services start postgresql@16"
postgres_install_hint _ =
    "     sudo apt install postgresql        # Debian/Ubuntu\n     sudo dnf install postgresql-server # Fedora/RHEL\n     sudo pacman -S postgresql          # Arch"
