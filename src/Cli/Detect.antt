-- ===== src/Cli/Detect.antt =====
-- packages/core/src/cli/lib/detect.ts: what is on the machine. The waiting takes its number of rounds as fuel.
use queueway.Base.{
  ◌&&◌, ltb, [], zero, ◌+◌, not, nat_eq, ◌||◌, some, after_prefix, codes, is_some, suc, is_empty,
  ◌∷◌, none, List, false, ℕ, if◌then◌else◌, Option, true, Bool,
}
use queueway.Cli.Machine.{
  pause, docker_compose_version, docker_image_ls, spawn, docker_info, file_exists, docker_version,
  clock, probe, open_docker, command, Command, Wizard, done, throw, perform, ◌>>=◌, ◌>>◌,
}

pub data Platform : Type 0 where
  win32 darwin linux other_unix : Platform

pub record DockerStatus : Type 0 where
  pub cli : Bool
  pub daemon : Bool
  pub compose : Bool
  pub version : Option (List ℕ)

abbrev pub no_docker : DockerStatus
no_docker = record { cli = false; daemon = false; compose = false; version = none }

abbrev pub before_comma : List ℕ → List ℕ
before_comma [] = []
before_comma (c ∷ s) = let rest = before_comma s in if nat_eq c 44 then [] else c ∷ rest

abbrev pub or_unchanged : List ℕ → Option (List ℕ) → List ℕ
or_unchanged s none = s
or_unchanged s (some rest) = rest

abbrev pub version_of : List ℕ → List ℕ
version_of s = before_comma (or_unchanged s (after_prefix (codes "Docker version ") s))

abbrev pub succeeded : Command → Wizard Bool
succeeded c = do output ← perform (command c); done output.exit_ok

abbrev pub with_images : List ℕ → Bool → Bool → Wizard DockerStatus
with_images version info images = do
  compose ← succeeded docker_compose_version
  done (record {
    cli = true;
    daemon = info && images;
    compose = compose;
    version = some (version_of version);
  })

unfoldable pub detect_docker : Wizard DockerStatus
detect_docker = do
  version ← perform (command docker_version)
  if not version.exit_ok then done no_docker else (do
    info ← succeeded docker_info
    images ← if info then succeeded docker_image_ls else done false
    with_images version.stdout info images)

-- The first of these programs that is there and starts.
abbrev pub spawn_first : List (List ℕ) → Wizard Bool
spawn_first [] = done false
spawn_first (exe ∷ more) =
    let rest = spawn_first more in
    if is_empty exe then rest else (do
      found ← perform (file_exists exe)
      if not found
          then rest
          else (do started ← perform (spawn exe); if started then done true else rest))

unfoldable pub try_start_docker_desktop : Platform → List (List ℕ) → Wizard Bool
try_start_docker_desktop darwin candidates = succeeded open_docker
try_start_docker_desktop win32 candidates = spawn_first candidates
try_start_docker_desktop _ candidates = done false

abbrev pub contains : List ℕ → List ℕ → Bool
contains word [] = is_some (after_prefix word [])
contains word (c ∷ s) = is_some (after_prefix word (c ∷ s)) || contains word s

pub data DockerError : Type 0 where
  not_enough_memory hyper_v wsl permission_denied unfinished : DockerError

-- Which of the explanations is given, of a text in lower case.
unfoldable pub summarise_docker_error : List ℕ → DockerError
summarise_docker_error text =
    if contains (codes "not enough memory") text || contains (codes "0x8007000e") text
    then not_enough_memory
    else if contains (codes "hyper-v") text || contains (codes "virtualization") text
    then hyper_v
    else if contains (codes "wsl") text
    then wsl
    else if contains (codes "permission denied") text
    then permission_denied
    else unfinished

pub record DockerWaitResult : Type 0 where
  pub ready : Bool
  pub reason : Option DockerError

-- `stderr || lastReason`
abbrev pub newer : List ℕ → List ℕ → List ℕ
newer stderr last = if is_empty stderr then last else stderr

module _ (lower : List ℕ → List ℕ) where
  abbrev pub gave_up : List ℕ → DockerWaitResult
  gave_up last = record { ready = false; reason = some (summarise_docker_error (lower last)) }

  unfoldable pub wait_for_docker_rounds : ℕ → ℕ → List ℕ → Wizard DockerWaitResult
  wait_for_docker_rounds zero deadline last = done (gave_up last)
  wait_for_docker_rounds (suc rounds) deadline last = do
    now ← perform clock
    if not (ltb now deadline) then done (gave_up last) else (do
      info ← perform (command docker_info)
      if info.exit_ok
          then (do
            images ← perform (command docker_image_ls)
            if images.exit_ok
                then done (record { ready = true; reason = none })
                else perform (pause 3000)
                  >> wait_for_docker_rounds rounds deadline (newer images.stderr last))
          else perform (pause 3000)
            >> wait_for_docker_rounds rounds deadline (newer info.stderr last))

  -- Each round pauses for three seconds, so 41 of them reach past the 120 of the deadline.
  unfoldable pub wait_for_docker_daemon : Wizard DockerWaitResult
  wait_for_docker_daemon = do now ← perform clock; wait_for_docker_rounds 41 (now + 120000) []

-- What a socket says while it connects; the first word counts.
pub data SocketEvent : Type 0 where
  on_connect on_timeout on_error : SocketEvent

pub record Settling : Type 0 where
  pub result : Option Bool
  destroyed : Bool

abbrev pub settle_once : Bool → Settling → Settling
settle_once b s = if is_some s.result then s else record { result = some b; destroyed = true }

abbrev pub hear : SocketEvent → Settling → Settling
hear on_connect s = settle_once true s
hear on_timeout s = settle_once false s
hear on_error s = settle_once false s

abbrev pub is_port_open : ℕ → Wizard Bool
is_port_open port = perform (probe port)

unfoldable pub find_free_port : ℕ → ℕ → Wizard ℕ
find_free_port zero port = throw
find_free_port (suc attempts) port = do
  taken ← is_port_open port
  if taken then find_free_port attempts (port + 1) else done port
