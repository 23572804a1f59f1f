-- ===== src/Cli/Daemon/Background.antt =====
-- daemon.ts, start.ts and stop.ts: one server in the background, from its start to its stop.
use queueway.Base.{
  ap, ◌∙◌, inl, inr, Bool-cases, if◌then◌else◌, arith, nat_eq, ◌≡◌, refl, true, false, none, some,
  ◌∷◌, ℕ,
}
use queueway.Cli.Daemon.{
  stop_recorded, look_again, start_command, stop_command, send_sigterm, is_process_alive,
  already_running, launch_detached, PidFileInfo, Terminal, StartOptions, Host,
}

same_pid : (pid : ℕ) → nat_eq pid pid ≡ true
same_pid pid = ground arith

-- A server that was launched in the background is not launched twice: while its process lives, every
-- later start by hand leaves the host as it is.
start_once :
    (now pid port : ℕ) (h : Host)
    → (later next_pid : ℕ) (options : StartOptions) (t : Terminal) → t.is_daemon_child ≡ false
    → start_command later next_pid options t (launch_detached now pid port h).1
      ≡ (already_running, (launch_detached now pid port h).1)
unfolding start_command
start_once now pid port h later next_pid options t c = rw (c, same_pid pid) refl

look_again_lem :
    (info : PidFileInfo) (h : Host)
    → h.pid_file ≡ some info
    → ((look_again info.pid h).1.pid_file
        ≡ (if is_process_alive info.pid (look_again info.pid h).1 then some info else none))
      × ((look_again info.pid h).1.signalled ≡ h.signalled)
look_again_lem info h e = elim (Bool-cases (is_process_alive info.pid h)) [
  | inl lives ↦ rw lives (rw lives (e, refl))
  | inr gone ↦ rw gone (rw gone (refl, refl))
]

stop_recorded_lem :
    (meanwhile : Host → Host) (info : PidFileInfo) (h : Host)
    → (meanwhile (send_sigterm info.pid h)).pid_file ≡ some info
    → (meanwhile (send_sigterm info.pid h)).signalled ≡ info.pid ∷ h.signalled
    → ((stop_recorded meanwhile (some info) h).1.pid_file ≡ (
        if is_process_alive info.pid (stop_recorded meanwhile (some info) h).1
        then some info
        else none))
      × ((stop_recorded meanwhile (some info) h).1.signalled
          ≡ (if is_process_alive info.pid h then info.pid ∷ h.signalled else h.signalled))
stop_recorded_lem meanwhile info h e q = elim (Bool-cases (is_process_alive info.pid h)) [
  | inl lives ↦
      let (left, told) = look_again_lem info (meanwhile (send_sigterm info.pid h)) e in
      rw lives (left, told ∙ q)
  | inr dead ↦ rw dead (rw dead (refl, refl))
]

stop-recorded :
    (meanwhile : Host → Host) (info : PidFileInfo) (h : Host)
    → h.pid_file ≡ some info
    → stop_command meanwhile h ≡ stop_recorded meanwhile (some info) h
unfolding stop_command
stop-recorded meanwhile info h e = ap (λ f. stop_recorded meanwhile f h) e

-- If nothing changes the PID file or the signals while `queueway stop` waits, it signals the
-- recorded process if that lives and no other, and the PID file is gone exactly if that process
-- does not live at the end.
pub stop_command_lem :
    (meanwhile : Host → Host)
    → ((h : Host) → (meanwhile h).pid_file ≡ h.pid_file)
    → ((h : Host) → (meanwhile h).signalled ≡ h.signalled)
    → (info : PidFileInfo) (h : Host) → h.pid_file ≡ some info
    → ((stop_command meanwhile h).1.pid_file
        ≡ (if is_process_alive info.pid (stop_command meanwhile h).1 then some info else none))
      × ((stop_command meanwhile h).1.signalled
          ≡ (if is_process_alive info.pid h then info.pid ∷ h.signalled else h.signalled))
stop_command_lem meanwhile keeps quiet info h e = rw (stop-recorded meanwhile info h e) (
    stop_recorded_lem meanwhile info h (keeps (send_sigterm info.pid h) ∙ e)
      (quiet (send_sigterm info.pid h)))
