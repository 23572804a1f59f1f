-- ===== src/Cli/Init/Steps.antt =====
-- The parts of `queueway init` that ask and start containers keep its rules.
use queueway.Base.{
  ltb, arith, is_some, ◌*◌, not, if◌then◌else◌, refl, suc, zero, false, true, [], ◌∷◌, ◌+◌, none,
  ◌≡◌, Option, ℕ, List, Bool,
}
use queueway.Cli.Machine.Runs.{called, Event, Along}
use queueway.Cli.Init.Rules.{confirmed, Allowed, Asks, sound}
use queueway.Cli.Detect.{find_free_port}
use queueway.Cli.Docker.{
  pull_image, start_stack, wait_for_port, try_command, remove_volume, container_running,
  volume_exists, wait_rounds,
}
use queueway.Cli.Machine.{
  Output, docker_pull, pause, command, compose_up, connect_url, Command, connect_as, ServiceName,
  Effect, Login, clock, throw, step, done, ◌>>=◌, probe, Wizard,
}
use queueway.Cli.SetupPostgres.Container.{retry_login, retry_url}
use queueway.Cli.SetupPostgres.{admin_login, try_candidates}

module _ {ℓ κ} {A : Type ℓ} {B : Type κ} (slug : List ℕ) (d : Bool)
    (ends : List Event → Option B → Type 0) where
  pub Asks-bind :
      (h : List Event) (m : Wizard A) (f : A → Wizard B)
      → Asks slug d h m
      → ((h : List Event) → sound d h ≡ true → ends h none)
      → ((h : List Event) (a : A) → sound d h ≡ true → Along (Allowed slug) ends h (f a))
      → Along (Allowed slug) ends h (m >>= f)
  Asks-bind h (done a) f e n k = k h a e
  Asks-bind h throw f e n k = n h e
  Asks-bind h (step c m) f e n k = (e.0, λ r. Asks-bind (called c r ∷ h) (m r) f (e.1 r) n k)

module _ {ℓ} {A : Type ℓ} (rule : List Event → Effect → Type 0)
    (ends : List Event → Option A → Type 0) where
  -- Both branches of a test.
  pub Along-if :
      (h : List Event) (b : Bool) (x y : Wizard A)
      → (b ≡ true → Along rule ends h x)
      → (b ≡ false → Along rule ends h y)
      → Along rule ends h (if b then x else y)
  Along-if h true x y p q = p refl
  Along-if h false x y p q = q refl

module _ (slug : List ℕ) (d : Bool) where
  pub split {ℓ} :
      {A : Type ℓ} (h : List Event) (b : Bool) (x y : Wizard A)
      → Asks slug d h x
      → Asks slug d h y
      → Asks slug d h (if b then x else y)
  split h b x y p q = Along-if (Allowed slug) (λ h o. sound d h ≡ true) h b x y (λ _. p) (λ _. q)

  pub go_on {ℓ κ} :
      {A : Type ℓ} {B : Type κ} (h : List Event) (m : Wizard A) (f : A → Wizard B)
      → Asks slug d h m
      → ((h : List Event) (a : A) → sound d h ≡ true → Asks slug d h (f a))
      → Asks slug d h (m >>= f)
  go_on h m f e k = Asks-bind slug d (λ h o. sound d h ≡ true) h m f e (λ h n. n) k

  pub find_free_port-Asks :
      (n p : ℕ) (h : List Event) → sound d h ≡ true → Asks slug d h (find_free_port n p)
  unfolding find_free_port
  find_free_port-Asks zero p h e = e
  find_free_port-Asks (suc n) p h e = (
    tt,
    λ taken.
        split (called (probe p) taken ∷ h) taken _ _
          (find_free_port-Asks n (p + 1) (called (probe p) taken ∷ h) e) e,
  )

  wait_rounds-Asks :
      (n deadline port : ℕ) (h : List Event)
      → sound d h ≡ true
      → Asks slug d h (wait_rounds n deadline port)
  unfolding wait_rounds
  wait_rounds-Asks zero deadline port h e = e
  wait_rounds-Asks (suc n) deadline port h e = (
    tt,
    λ now. split (called clock now ∷ h) (not (ltb now deadline)) _ _ e (
      tt,
      λ taken. split (called (probe port) taken ∷ called clock now ∷ h) taken _ _ e (
        tt,
        λ r.
            wait_rounds-Asks n deadline port
              (called (pause 1000) r ∷ called (probe port) taken ∷ called clock now ∷ h) e,
      ),
    ),
  )

  pub wait_for_port-Asks :
      (port seconds : ℕ) (h : List Event)
      → sound d h ≡ true
      → Asks slug d h (wait_for_port port seconds)
  unfolding wait_for_port
  wait_for_port-Asks port seconds h e = (
    tt,
    λ now. wait_rounds-Asks (suc seconds) (now + 1000 * seconds) port (called clock now ∷ h) e,
  )

  pub volume_exists-Asks :
      (service : ServiceName) (h : List Event)
      → sound d h ≡ true
      → Asks slug d h (volume_exists slug service)
  unfolding volume_exists
  volume_exists-Asks service h e = (tt, λ output. e)

  pub container_running-Asks :
      (service : ServiceName) (h : List Event)
      → sound d h ≡ true
      → Asks slug d h (container_running slug service)
  unfolding container_running
  container_running-Asks service h e = (tt, λ output. e)

  -- The data of a service goes only after its owner has agreed.
  pub remove_volume-Asks :
      (service : ServiceName) (h : List Event)
      → sound d h ≡ true
      → confirmed service h ≡ true
      → Asks slug d h (remove_volume slug service)
  unfolding remove_volume
  remove_volume-Asks service h e c =
      ((service, refl, c), λ first. ((service, refl, c), λ second. e))

  pub retry_url-Asks :
      (n : ℕ) (url : List ℕ) (h : List Event) → sound d h ≡ true → Asks slug d h (retry_url n url)
  retry_url-Asks zero url h e = e
  retry_url-Asks (suc n) url h e = (
    tt,
    λ works. split (called (connect_url url) works ∷ h) works _ _ e (
      tt,
      λ r. retry_url-Asks n url (called (pause 1500) r ∷ called (connect_url url) works ∷ h) e,
    ),
  )

  pub retry_login-Asks :
      (n : ℕ) (login : Login) (h : List Event)
      → sound d h ≡ true
      → Asks slug d h (retry_login n login)
  retry_login-Asks zero login h e = e
  retry_login-Asks (suc n) login h e = (
    tt,
    λ failure. split (called (connect_as login) failure ∷ h) (not (is_some failure)) _ _ e (
      tt,
      λ r.
          retry_login-Asks n login (called (pause 1500) r ∷ called (connect_as login) failure ∷ h)
            e,
    ),
  )

  pub try_candidates-Asks :
      (cs : List (List ℕ × Option (List ℕ))) (h : List Event)
      → sound d h ≡ true
      → Asks slug d h (try_candidates cs)
  try_candidates-Asks [] h e = e
  try_candidates-Asks (c ∷ cs) h e = (
    tt,
    λ failure.
        split (called (connect_as (admin_login c)) failure ∷ h) (not (is_some failure)) _ _ e
          (try_candidates-Asks cs (called (connect_as (admin_login c)) failure ∷ h) e),
  )

module _ (slug : List ℕ) where
  -- Containers are started only where Docker was found ready.
  try_command-Asks :
      (c : Command) (n : ℕ) (h : List Event)
      → ((h : List Event)
          → sound true h ≡ true
          → Allowed slug h (command c)
            × ((r : Output) → sound true (called (command c) r ∷ h) ≡ true))
      → sound true h ≡ true
      → Asks slug true h (try_command c n)
  unfolding try_command
  try_command-Asks c zero h k e = e
  try_command-Asks c (suc zero) h k e = ((k h e).0, (k h e).1)
  try_command-Asks c (suc (suc n)) h k e = (
    (k h e).0,
    λ r. split slug true (called (command c) r ∷ h) r.exit_ok _ _ ((k h e).1 r) (
      tt,
      λ t.
          try_command-Asks c (suc n) (called (pause 10000) t ∷ called (command c) r ∷ h) k
            ((k h e).1 r),
    ),
  )

  pub pull_image-Asks :
      (service : ServiceName) (h : List Event)
      → sound true h ≡ true
      → Asks slug true h (pull_image service)
  unfolding pull_image
  pull_image-Asks service h e =
      try_command-Asks (docker_pull service) 3 h (λ h e. (ground (arith, e), λ r. e)) e

  pub start_stack-Asks : (h : List Event) → sound true h ≡ true → Asks slug true h start_stack
  unfolding start_stack
  start_stack-Asks h e = try_command-Asks compose_up 2 h (λ h e. (ground (arith, e), λ r. e)) e
