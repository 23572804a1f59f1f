-- ===== src/Cli/Waiting.antt =====
-- detect.ts and dockerServices.ts: which port is chosen, and how waiting for one ends.
use queueway.Base.{
  true, false, ltb, not, arith, sym, if◌then◌else◌, ◌*◌, ◌≡◌, Option, Bool, ◌≤◌, ◌+◌, refl, zero,
  suc, none, some, [], ◌∷◌, List, ℕ,
}
use queueway.Cli.Detect.{
  wait_for_docker_daemon, gave_up, newer, wait_for_docker_rounds, DockerWaitResult, is_port_open,
  find_free_port,
}
use queueway.Cli.Docker.{wait_for_port, wait_rounds}
use queueway.Cli.Machine.{
  docker_image_ls, docker_info, Response, command, Effect, Output, ◌>>=◌, ◌>>◌, perform, Wizard,
  done, probe, pause, clock,
}
use queueway.Cli.Machine.Runs.{called, Event, run, Outside}

abbrev pub range : ℕ → ℕ → List ℕ
range start zero = []
range start (suc n) = start ∷ range (start + 1) n

abbrev pub first_closed : (ℕ → Bool) → List ℕ → Option ℕ
first_closed open_port [] = none
first_closed open_port (p ∷ ps) = if open_port p then first_closed open_port ps else some p

-- If whether a port is taken does not change, the search for a free port gives the first port of
-- its range that nothing listens on, and throws if there is none.
pub find_free_port_lem :
    (o : Outside) (open_port : ℕ → Bool)
    → ((h : List Event) (p : ℕ) → o h (probe p) ≡ open_port p)
    → (n start : ℕ) (h : List Event)
    → (run o h (find_free_port n start)).0 ≡ first_closed open_port (range start n)
unfolding find_free_port
find_free_port_lem o open_port k zero start h = refl
find_free_port_lem o open_port k (suc n) start h =
    go (o h (probe start)) (k h start) (λ h. find_free_port_lem o open_port k n (start + 1) h)
  where
    go :
        (taken : Bool)
        → taken ≡ open_port start
        → ((h : List Event)
            → (run o h (find_free_port n (start + 1))).0
              ≡ first_closed open_port (range (start + 1) n))
        → (run o
            (called (probe start) taken ∷ h)
            (if taken then find_free_port n (start + 1) else done start)).0
          ≡ (if open_port start then first_closed open_port (range (start + 1) n) else some start)
    go true e more = rw (sym e) (more (called (probe start) true ∷ h))
    go false e more = rw (sym e) refl

-- The clock does not go back, and a pause takes its time.
abbrev pub Ticks : Outside → Type 0
Ticks o =
    ((h : List Event) (c : Effect) (r : Response c) → o h clock ≤ o (called c r ∷ h) clock)
    × ((h : List Event) (n : ℕ) → o h clock + n ≤ o (called (pause n) tt ∷ h) clock)

run-else :
    {A : Type 0} (o : Outside) (h : List Event) (b : Bool) (x y z : Wizard A)
    → (b ≡ false → run o h y ≡ run o h z)
    → run o h (if b then x else y) ≡ run o h (if b then x else z)
run-else o h true x y z e = refl
run-else o h false x y z e = e refl

run-both :
    {A : Type 0} (o : Outside) (h : List Event) (b : Bool) (x x' y y' : Wizard A)
    → run o h x ≡ run o h x'
    → run o h y ≡ run o h y'
    → run o h (if b then x else y) ≡ run o h (if b then x' else y')
run-both o h true x x' y y' e f = e
run-both o h false x x' y y' e f = f

past : (now deadline : ℕ) → deadline ≤ now → not (ltb now deadline) ≡ false → ⊥
past now deadline d e = ground (arith, d, e)

abbrev waiting : ℕ → ℕ → ℕ → Wizard Bool
waiting n deadline port = perform (pause 1000) >> wait_rounds n deadline port

abbrev asking : ℕ → ℕ → ℕ → Wizard Bool
asking n deadline port =
    is_port_open port >>= (λ taken. if taken then done true else waiting n deadline port)

-- Rounds beyond those that the deadline leaves change nothing.
wait_rounds-enough :
    (o : Outside) (n m deadline port : ℕ) (h : List Event)
    → Ticks o
    → n ≤ m
    → deadline ≤ o h clock + 1000 * n
    → run o h (wait_rounds (suc m) deadline port) ≡ run o h (wait_rounds (suc n) deadline port)
unfolding wait_rounds
wait_rounds-enough o zero m deadline port h t le d =
    run-else o (called clock (o h clock) ∷ h) (not (ltb (o h clock) deadline)) _ _ _
      (λ e. absurd (past (o h clock) deadline (ground (arith, d)) e))
wait_rounds-enough o (suc n) zero deadline port h t le d = absurd (ground (arith, le))
wait_rounds-enough o (suc n) (suc m) deadline port h t le d =
    let now = o h clock in
    let taken = o (called clock now ∷ h) (probe port) in
    let asked = called (probe port) taken ∷ called clock now ∷ h in
    run-else o (called clock now ∷ h) (not (ltb now deadline)) (done false)
      (asking (suc m) deadline port) (asking (suc n) deadline port)
      (λ _.
        run-else o asked taken (done true) (waiting (suc m) deadline port)
          (waiting (suc n) deadline port)
          (λ _.
            wait_rounds-enough o n m deadline port
              (called (pause 1000) (o asked (pause 1000)) ∷ asked) t (ground (arith, le))
              (ground (
                arith,
                d,
                t.0 h clock now,
                t.0 (called clock now ∷ h) (probe port) taken,
                t.1 asked 1000,
              ))))

-- If the clock does not go back and a pause takes its time, waiting for a port for some seconds is
-- the same run with any number of rounds that is larger: the rounds reach the deadline.
pub wait_for_port_enough :
    (o : Outside) (port seconds rounds : ℕ) (h : List Event)
    → Ticks o
    → seconds ≤ rounds
    → run o h (wait_for_port port seconds)
      ≡ run o
          (called clock (o h clock) ∷ h)
          (wait_rounds (suc rounds) (o h clock + 1000 * seconds) port)
unfolding wait_for_port
wait_for_port_enough o port seconds rounds h t le = sym (
    wait_rounds-enough o seconds rounds (o h clock + 1000 * seconds) port
      (called clock (o h clock) ∷ h) t le (ground (arith, t.0 h clock (o h clock))))

module _ (lower : List ℕ → List ℕ) where
  abbrev pausing : ℕ → ℕ → List ℕ → Wizard DockerWaitResult
  pausing n deadline last = perform (pause 3000) >> wait_for_docker_rounds lower n deadline last

  abbrev ready_or : Output → Wizard DockerWaitResult → Wizard DockerWaitResult
  ready_or images w = if images.exit_ok then done (record { ready = true; reason = none }) else w

  abbrev listing : ℕ → ℕ → List ℕ → Wizard DockerWaitResult
  listing n deadline last =
      perform (command docker_image_ls)
      >>= (λ images. ready_or images (pausing n deadline (newer images.stderr last)))

  abbrev looking : ℕ → ℕ → List ℕ → Wizard DockerWaitResult
  looking n deadline last = perform (command docker_info) >>= (λ info.
      if info.exit_ok then listing n deadline last else pausing n deadline (newer info.stderr last))

  docker_rounds-enough :
      (o : Outside) (n m deadline : ℕ) (last : List ℕ) (h : List Event)
      → Ticks o
      → n ≤ m
      → deadline ≤ o h clock + 3000 * n
      → run o h (wait_for_docker_rounds lower (suc m) deadline last)
        ≡ run o h (wait_for_docker_rounds lower (suc n) deadline last)
  unfolding wait_for_docker_rounds
  docker_rounds-enough o zero m deadline last h t le d =
      run-else o (called clock (o h clock) ∷ h) (not (ltb (o h clock) deadline)) _ _ _
        (λ e. absurd (past (o h clock) deadline (ground (arith, d)) e))
  docker_rounds-enough o (suc n) zero deadline last h t le d = absurd (ground (arith, le))
  docker_rounds-enough o (suc n) (suc m) deadline last h t le d =
      let now = o h clock in
      let started = called clock now ∷ h in
      let info = o started (command docker_info) in
      let told = called (command docker_info) info ∷ started in
      let images = o told (command docker_image_ls) in
      let listed = called (command docker_image_ls) images ∷ told in
      let first : now ≤ o told clock =
        ground (arith, t.0 h clock now, t.0 started (command docker_info) info) in
      let again : (l : List ℕ) (g : List Event)
          → now ≤ o g clock
          → run o g (pausing (suc m) deadline l) ≡ run o g (pausing (suc n) deadline l) =
        λ l g e.
          docker_rounds-enough o n m deadline l (called (pause 3000) (o g (pause 3000)) ∷ g) t
            (ground (arith, le)) (ground (arith, d, e, t.1 g 3000)) in
      run-else o started (not (ltb now deadline)) (done (gave_up lower last))
        (looking (suc m) deadline last) (looking (suc n) deadline last)
        (λ _.
          run-both o told info.exit_ok (listing (suc m) deadline last)
            (listing (suc n) deadline last) (pausing (suc m) deadline (newer info.stderr last))
            (pausing (suc n) deadline (newer info.stderr last))
            (run-else o listed images.exit_ok (done (record { ready = true; reason = none }))
              (pausing (suc m) deadline (newer images.stderr last))
              (pausing (suc n) deadline (newer images.stderr last))
              (λ _.
                again (newer images.stderr last) listed
                  (ground (arith, first, t.0 told (command docker_image_ls) images))))
            (again (newer info.stderr last) told first))

  -- The rounds that `waitForDockerDaemon` is given reach its deadline.
  wait_for_docker_daemon_enough :
      (o : Outside) (rounds : ℕ) (h : List Event)
      → Ticks o
      → 40 ≤ rounds
      → run o h (wait_for_docker_daemon lower)
        ≡ run o
            (called clock (o h clock) ∷ h)
            (wait_for_docker_rounds lower (suc rounds) (o h clock + 120000) [])
  unfolding wait_for_docker_daemon
  wait_for_docker_daemon_enough o rounds h t le = sym (
      docker_rounds-enough o 40 rounds (o h clock + 120000) [] (called clock (o h clock) ∷ h) t le
        (ground (arith, t.0 h clock (o h clock))))
