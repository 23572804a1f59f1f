-- ===== src/Monitoring/Watchdog.antt =====
-- packages/core/src/cli/commands/start.ts: `runWatchdog`, as a state machine over the ends of the
-- server's process. Times are in milliseconds.
pub mod Restarts
use queueway.Base.{
  none, nat_eq, ◌==◌, ◌-◌, some, ◌+◌, ◌||◌, ◌≡◌, ltb, leb, false, true, String, ℕ, if◌then◌else◌,
  Bool, Option,
}

abbrev pub max_restarts_per_window : ℕ
max_restarts_per_window = 5

abbrev pub restart_window_ms : ℕ
restart_window_ms = 60000

abbrev pub restart_delay_ms : ℕ
restart_delay_ms = 1000

-- `waiting` until a time: `setTimeout(launch, …)`.
pub data Phase : Type 0 where
  running stopped gave_up : Phase
  waiting : ℕ → Phase

pub record Watchdog : Type 0 where
  pub restart_count : ℕ
  pub window_start : ℕ
  pub shutting_down : Bool
  pub is_daemon_child : Bool
  pub pid_file : Bool
  pub phase : Phase

-- How the child ended.
pub record Exit : Type 0 where
  pub code : Option ℕ
  pub signal : Option String

abbrev is_code_zero : Option ℕ → Bool
is_code_zero none = false
is_code_zero (some n) = nat_eq n 0

abbrev is_signal : String → Option String → Bool
is_signal name none = false
is_signal name (some s) = s == name

abbrev pub was_asked : Watchdog → Exit → Bool
was_asked w x =
    w.shutting_down
    || is_signal "SIGINT" x.signal
    || is_signal "SIGTERM" x.signal
    || is_code_zero x.code

abbrev pub without_pid_file : Watchdog → Watchdog
without_pid_file w = if w.is_daemon_child then record w { pid_file = false } else w

abbrev pub count_restart : ℕ → Watchdog → Watchdog
count_restart now w =
    if ltb restart_window_ms (now - w.window_start)
    then record w { window_start = now; restart_count = 1 }
    else record w { restart_count = w.restart_count + 1 }

abbrev pub restart_or_give_up : ℕ → Watchdog → Watchdog
restart_or_give_up now w =
    if ltb max_restarts_per_window w.restart_count
    then record (without_pid_file w) { phase = gave_up }
    else record w { phase = waiting (now + restart_delay_ms) }

-- `child.on("exit", …)`
unfoldable pub on_exit : ℕ → Exit → Watchdog → Watchdog
on_exit now x w =
    if was_asked w x
    then record (without_pid_file w) { phase = stopped }
    else restart_or_give_up now (count_restart now w)

abbrev pub relaunch : Phase → ℕ → Phase
relaunch (waiting t) now = if leb t now then running else waiting t
relaunch p now = p

-- `shutdown`, on SIGINT or SIGTERM.
unfoldable pub shutdown : Watchdog → Watchdog
shutdown w = record (without_pid_file w) { shutting_down = true; phase = stopped }

unfoldable pub launched : (is_daemon_child : Bool) (now : ℕ) → Watchdog
launched d now = record {
  restart_count = 0;
  window_start = now;
  shutting_down = false;
  is_daemon_child = d;
  pid_file = d;
  phase = running;
}

pub data Step : ℕ → Watchdog → Watchdog → Type 0 where
  exits : {now : ℕ} {w : Watchdog} (x : Exit) → w.phase ≡ running → Step now w (on_exit now x w)
  timer : {now : ℕ} {w : Watchdog} → Step now w (record w { phase = relaunch w.phase now })
  signalled : {now : ℕ} {w : Watchdog} → Step now w (shutdown w)
