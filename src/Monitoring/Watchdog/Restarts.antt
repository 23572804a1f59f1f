-- ===== src/Monitoring/Watchdog/Restarts.antt =====
-- start.ts: how often the watchdog restarts the server, and what its PID file says.
use queueway.Monitoring.Watchdog.{
  gave_up, waiting, was_asked, count_restart, without_pid_file, restart_or_give_up, launched,
  signalled, timer, stopped, exits, relaunch, running, Step, Exit, Phase, shutdown, on_exit,
  Watchdog,
}
use mathlib.Core.Path.{subst}
use queueway.Base.{
  nat_eq, if◌then◌else◌, inr, ltb, inl, Bool-cases, lt→ltb, ◌-◌, ◌∙◌, le→ltb, length, ◌<◌, ◌+◌, All,
  arith, [], none, ◌≤◌, ◌∷◌, Bool, ◌≡◌, some, ℕ, List, refl, false, true,
}

abbrev pub is_alive : Phase → Bool
is_alive running = true
is_alive (waiting t) = true
is_alive stopped = false
is_alive gave_up = false

-- While the watchdog is at work, it is within its limit.
abbrev pub IsWithinLimit : Phase → ℕ → Type 0
IsWithinLimit running n = n ≤ 5
IsWithinLimit (waiting t) n = n ≤ 5
IsWithinLimit stopped n = Unit
IsWithinLimit gave_up n = Unit

-- The PID file of a daemon stands exactly as long as the watchdog is at work.
abbrev pub IsMarked : (is_daemon_child pid_file at_work : Bool) → Type 0
IsMarked true file at_work = file ≡ at_work
IsMarked false file at_work = Unit

abbrev pub IsSound : Watchdog → Type 0
IsSound w =
    IsWithinLimit w.phase w.restart_count × IsMarked w.is_daemon_child w.pid_file (is_alive w.phase)

pub data Run : Watchdog → Watchdog → Type 0 where
  rest : {w : Watchdog} → Run w w
  next : {a b c : Watchdog} (now : ℕ) → Step now a b → Run b c → Run a c

relaunch-IsSound :
    (p : Phase) (now n : ℕ) (d file : Bool)
    → IsWithinLimit p n
    → IsMarked d file (is_alive p)
    → IsWithinLimit (relaunch p now) n × IsMarked d file (is_alive (relaunch p now))
relaunch-IsSound (waiting t) now n true file h k = ground (arith, h, k)
relaunch-IsSound (waiting t) now n false file h k = ground (arith, h, k)
relaunch-IsSound running now n d file h k = (h, k)
relaunch-IsSound stopped now n d file h k = (h, k)
relaunch-IsSound gave_up now n d file h k = (h, k)

gave_up-IsSound : (w : Watchdog) → IsSound (record (without_pid_file w) { phase = gave_up })
gave_up-IsSound w = elim (Bool-cases w.is_daemon_child) [
  | inl d ↦ rw d (tt, refl)
  | inr d ↦ rw d (tt, tt)
]

stopped-IsSound : (w : Watchdog) → IsSound (record (without_pid_file w) { phase = stopped })
stopped-IsSound w = elim (Bool-cases w.is_daemon_child) [
  | inl d ↦ rw d (tt, refl)
  | inr d ↦ rw d (tt, tt)
]

restart-IsSound :
    (now : ℕ) (w : Watchdog)
    → IsMarked w.is_daemon_child w.pid_file true
    → IsSound (restart_or_give_up now w)
restart-IsSound now w k = elim (Bool-cases (ltb 5 w.restart_count)) [
  | inl e ↦ rw e (gave_up-IsSound w)
  | inr e ↦ rw e (ground (arith, e), k)
]

count_restart-IsMarked :
    (now : ℕ) (w : Watchdog) (p : Bool)
    → IsMarked w.is_daemon_child w.pid_file p
    → IsMarked (count_restart now w).is_daemon_child (count_restart now w).pid_file p
count_restart-IsMarked now w p k = elim (Bool-cases (ltb 60000 (now - w.window_start))) [
  | inl e ↦ rw e k
  | inr e ↦ rw e k
]

on_exit-IsSound :
    (now : ℕ) (x : Exit) (w : Watchdog) → w.phase ≡ running → IsSound w → IsSound (on_exit now x w)
unfolding on_exit
on_exit-IsSound now x w e (_, k) = elim (Bool-cases (was_asked w x)) [
  | inl a ↦ rw a (stopped-IsSound w)
  | inr a ↦ rw a (
      restart-IsSound now (count_restart now w) (
        count_restart-IsMarked now w true
          (subst (λ p. IsMarked w.is_daemon_child w.pid_file (is_alive p)) e k)))
]

Step-IsSound : (now : ℕ) {a b : Watchdog} → Step now a b → IsSound a → IsSound b
unfolding shutdown
Step-IsSound now (exits {w = w} x e) h = on_exit-IsSound now x w e h
Step-IsSound now (timer {w = w}) (h, k) =
    relaunch-IsSound w.phase now w.restart_count w.is_daemon_child w.pid_file h k
Step-IsSound now (signalled {w = w}) h = stopped-IsSound w

-- Every run of the watchdog from a sound state stays sound: while it is at work it has counted at
-- most five restarts in its window, and the PID file of a daemon stands exactly as long as it is
-- at work.
pub Run-IsSound : {a b : Watchdog} → Run a b → IsSound a → IsSound b
Run-IsSound rest h = h
Run-IsSound (next now s r) h = Run-IsSound r (Step-IsSound now s h)

abbrev pub crash : Exit
crash = record { code = some 1; signal = none }

-- The server crashes at these times, each time as soon as it was started again.
unfoldable pub crashes : List ℕ → Watchdog → Watchdog
crashes [] w = w
crashes (t ∷ ts) w = crashes ts (on_exit t crash (record w { phase = running }))

-- What the watchdog keeps within one window.
crash_lem :
    (t : ℕ) (w : Watchdog)
    → w.shutting_down ≡ false
    → t ≤ w.window_start + 60000
    → w.restart_count < 5
    → let w' = on_exit t crash (record w { phase = running }) in
      (w'.shutting_down ≡ false)
      × (w'.window_start ≡ w.window_start)
      × (w'.restart_count ≡ w.restart_count + 1)
      × (w'.is_daemon_child ≡ w.is_daemon_child)
      × (is_alive w'.phase ≡ true)
unfolding on_exit
crash_lem t w s l c =
    rw
      (
        s,
        le→ltb 60000 (t - w.window_start) (omega (arith, l)),
        le→ltb 5 (w.restart_count + 1) (omega (arith, c)),
      )
      (refl, refl, refl, refl, refl)

next_phase_lem :
    (t : ℕ) (w : Watchdog)
    → w.shutting_down ≡ false
    → t ≤ w.window_start + 60000
    → w.restart_count ≤ 5
    → (on_exit t crash (record w { phase = running })).phase
      ≡ (if nat_eq w.restart_count 5 then gave_up else waiting (t + 1000))
unfolding on_exit
next_phase_lem t w s l c = elim (Bool-cases (nat_eq w.restart_count 5)) [
  | inl e ↦
      rw
        (
          s,
          le→ltb 60000 (t - w.window_start) (omega (arith, l)),
          lt→ltb 5 (w.restart_count + 1) (ground (arith, e)),
          e,
        )
        refl
  | inr e ↦
      rw
        (
          s,
          le→ltb 60000 (t - w.window_start) (omega (arith, l)),
          le→ltb 5 (w.restart_count + 1) (ground (arith, e, c)),
          e,
        )
        refl
]

crashes_lem :
    (start : ℕ) (ts : List ℕ) (w : Watchdog)
    → w.window_start ≡ start
    → w.shutting_down ≡ false
    → is_alive w.phase ≡ true
    → All (λ t. t ≤ start + 60000) ts
    → w.restart_count + length ts ≤ 5
    → let w' = crashes ts w in
      (w'.shutting_down ≡ false)
      × (w'.window_start ≡ start)
      × (w'.restart_count ≡ w.restart_count + length ts)
      × (is_alive w'.phase ≡ true)
unfolding crashes
crashes_lem start [] w e s p a l = (s, e, omega arith, p)
crashes_lem start (t ∷ ts) w e s p (b, a) l =
    let (s', e', c, _, p') = crash_lem t w s (omega (arith, b, e)) (omega (arith, l)) in
    let (x, y, z, q) =
      crashes_lem start ts (on_exit t crash (record w { phase = running })) (e' ∙ e) s' p' a
        (omega (arith, c, l)) in
    (x, y, omega (arith, z, c), q)

-- If a server has crashed at most five times, all within a minute of its first launch, then at one
-- more crash within that minute it is given up if it was the sixth, and otherwise restarted after
-- a second.
pub crash_loop_gives_up :
    (ts : List ℕ) (t now : ℕ) (d : Bool)
    → length ts ≤ 5
    → All (λ u. u ≤ now + 60000) ts
    → t ≤ now + 60000
    → let w = crashes ts (launched d now) in
      (w.restart_count ≡ length ts)
      × ((on_exit t crash (record w { phase = running })).phase
          ≡ (if nat_eq (length ts) 5 then gave_up else waiting (t + 1000)))
unfolding launched
crash_loop_gives_up ts t now d n a l =
    let (s, e, c, p) = crashes_lem now ts (launched d now) refl refl refl a (omega (arith, n)) in
    let count : (crashes ts (launched d now)).restart_count ≡ length ts = omega (arith, c) in
    (
      count,
      next_phase_lem t (crashes ts (launched d now)) s (omega (arith, e, l))
            (omega (arith, count, n))
          ∙ rw count refl,
    )
