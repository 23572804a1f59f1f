-- ===== src/Cli/Daemon.antt =====
-- packages/core/src/cli/lib/daemon.ts and the commands stop.ts, status.ts and the beginning of start.ts: the
-- server in the background. A number that is a process may be another process later.
pub mod Background
use queueway.Base.{
  [], ◌||◌, ◌&&◌, nat_eq, not, some, false, List, ◌∷◌, ℕ, if◌then◌else◌, none, Option, Bool,
}

pub record PidFileInfo : Type 0 where
  pub pid : ℕ
  pub port : ℕ
  pub started_at : ℕ

-- `pid_file` is `none` also where the file does not parse.
pub record Host : Type 0 where
  pub pid_file : Option PidFileInfo
  pub alive : List ℕ
  pub signalled : List ℕ

abbrev pub includes_pid : ℕ → List ℕ → Bool
includes_pid pid [] = false
includes_pid pid (p ∷ ps) = nat_eq p pid || includes_pid pid ps

abbrev pub is_process_alive : ℕ → Host → Bool
is_process_alive pid h = includes_pid pid h.alive

abbrev pub write_pid_file : ℕ → ℕ → ℕ → Host → Host
write_pid_file now pid port h = record h {
  pid_file = some (record { pid = pid; port = port; started_at = now });
}

abbrev pub remove_pid_file : Host → Host
remove_pid_file h = record h { pid_file = none }

abbrev pub send_sigterm : ℕ → Host → Host
send_sigterm pid h = record h { signalled = pid ∷ h.signalled }

pub data StopAnswer : Type 0 where
  no_server cleaned_up still_running stopped : StopAnswer

abbrev pub look_again : ℕ → Host → StopAnswer × Host
look_again pid h =
    if is_process_alive pid h then (still_running, h) else (stopped, remove_pid_file h)

abbrev pub stop_recorded : (Host → Host) → Option PidFileInfo → Host → StopAnswer × Host
stop_recorded meanwhile none h = (no_server, h)
stop_recorded meanwhile (some info) h =
    if not (is_process_alive info.pid h)
    then (cleaned_up, remove_pid_file h)
    else look_again info.pid (meanwhile (send_sigterm info.pid h))

-- What happens during the two seconds is an argument.
unfoldable pub stop_command : (Host → Host) → Host → StopAnswer × Host
stop_command meanwhile h = stop_recorded meanwhile h.pid_file h

pub record StartOptions : Type 0 where
  pub port : Option ℕ
  pub background : Bool
  foreground : Bool

-- Where the command runs, and the answer to its question.
pub record Terminal : Type 0 where
  pub is_daemon_child : Bool
  pub is_tty : Bool
  wants_background : Bool

pub data StartAnswer : Type 0 where
  already_running : StartAnswer
  launched_detached : ℕ → StartAnswer
  run_watchdog : ℕ → StartAnswer

abbrev pub port_of : Option ℕ → ℕ
port_of none = 4287
port_of (some port) = port

abbrev pub runs_already : Option PidFileInfo → Host → Bool
runs_already none h = false
runs_already (some info) h = is_process_alive info.pid h

abbrev pub in_background : StartOptions → Terminal → Bool
in_background options t =
    if not t.is_daemon_child && not options.background && not options.foreground && t.is_tty
    then t.wants_background
    else options.background && not options.foreground

-- `spawn` gives the new process its number.
abbrev pub launch_detached : ℕ → ℕ → ℕ → Host → StartAnswer × Host
launch_detached now pid port h =
    (launched_detached port, write_pid_file now pid port (record h { alive = pid ∷ h.alive }))

-- `runWatchdog` up to its first launch.
abbrev pub enter_watchdog : ℕ → ℕ → Bool → ℕ → Host → StartAnswer × Host
enter_watchdog now own_pid is_daemon_child port h =
    (run_watchdog port, if is_daemon_child then write_pid_file now own_pid port h else h)

unfoldable pub start_command : ℕ → ℕ → StartOptions → Terminal → Host → StartAnswer × Host
start_command now pid options t h =
    if not t.is_daemon_child && runs_already h.pid_file h
    then (already_running, h)
    else if in_background options t && not t.is_daemon_child
    then launch_detached now pid (port_of options.port) h
    else enter_watchdog now pid t.is_daemon_child (port_of options.port) h

pub data Mode : Type 0 where
  background_mode foreground_mode : Mode
  stuck stale absent : Mode

abbrev pub mode_when_reachable : Option PidFileInfo → Host → Mode
mode_when_reachable info h = if runs_already info h then background_mode else foreground_mode

abbrev pub mode_when_not : Option PidFileInfo → Host → Mode
mode_when_not none h = absent
mode_when_not (some info) h = if is_process_alive info.pid h then stuck else stale

-- The port that is asked, and what is told of the process, by whether the server answered.
unfoldable pub status_command : Option ℕ → (ℕ → Bool) → Host → ℕ × Mode
status_command option answers h =
    let port = port_of_status option h.pid_file in
    (port, if answers port then mode_when_reachable h.pid_file h else mode_when_not h.pid_file h)
  where
    recorded_port : Option PidFileInfo → ℕ
    recorded_port none = 4287
    recorded_port (some info) = info.port

    port_of_status : Option ℕ → Option PidFileInfo → ℕ
    port_of_status none info = recorded_port info
    port_of_status (some port) info = port
