-- ===== src/Cli/Init/Databases.antt =====
-- Setting a PostgreSQL up keeps the rules of `queueway init`.
use queueway.Cli.Init.OwnServers.{with_admin-Asks, find_admin-Asks}
use queueway.Base.{
  arith, if◌then◌else◌, not, ◌≡◌, List, Bool, ℕ, Option, true, false, none, some, [], ◌∷◌,
}
use queueway.Cli.Machine.{
  done, delete_data, random_password, confirm, probe, write_compose, env_value, choose, ServiceSpec,
  Choice, Login, existing, docker, back, keep, fresh, cancel, retry, use_sqlite, quit, postgres,
}
use queueway.Cli.Machine.Runs.{called, Event}
use queueway.Cli.Init.Rules.{Allowed, Asks, sound}
use queueway.Cli.SetupPostgres.{
  truthy, default_pg_port, spec_from_url, database_key, find_admin_silently, Setting,
}
use queueway.Cli.SetupPostgres.Menu.{menu, by_choice, setup_postgres}
use queueway.Cli.SetupPostgres.Container.{
  new_spec, new_login, redeclare, with_data, url_works, keep_data, set_up_again, bring_up, reuse,
  answers_on, start_fresh, start_container, provision_with_docker,
}
use queueway.Cli.Init.Steps.{
  remove_volume-Asks, retry_login-Asks, container_running-Asks, retry_url-Asks, find_free_port-Asks,
  start_stack-Asks, pull_image-Asks, volume_exists-Asks, wait_for_port-Asks, Along-if, split, go_on,
}
use queueway.Cli.Docker.{
  remove_volume, container_running, start_stack, pull_image, wait_for_port, volume_exists,
}
use queueway.Cli.Detect.{find_free_port}

module _ (s : Setting) where
  url_works-Asks :
      (url : Option (List ℕ)) (h : List Event)
      → sound true h ≡ true
      → Asks s.slug true h (url_works url)
  url_works-Asks none h e = e
  url_works-Asks (some url) h e = (tt, λ r. e)

  answers_on-Asks :
      (port : ℕ) (url : List ℕ) (up : Bool) (h : List Event)
      → sound true h ≡ true
      → Asks s.slug true h (answers_on port url up)
  answers_on-Asks port url false h e = e
  answers_on-Asks port url true h e =
      go_on s.slug true h (wait_for_port port 90) _ (wait_for_port-Asks s.slug true port 90 h e)
        (λ h taken e. split s.slug true h taken _ _ (retry_url-Asks s.slug true 20 url h e) e)

  keep_data-Asks :
      (url : Option (List ℕ)) (spec : Option ServiceSpec) (h : List Event)
      → sound true h ≡ true
      → Asks s.slug true h (keep_data s url spec)
  keep_data-Asks none spec h e = e
  keep_data-Asks (some url) none h e = e
  keep_data-Asks (some url) (some spec) h e = (
    tt,
    λ r.
        go_on s.slug true (called (write_compose spec s.slug) r ∷ h) start_stack _
          (start_stack-Asks s.slug (called (write_compose spec s.slug) r ∷ h) e)
          (λ h up e.
            go_on s.slug true h (answers_on spec.port url up) _
              (answers_on-Asks spec.port url up h e) (λ h works e. e)),
  )

  bring_up-Asks :
      (login : Login) (h : List Event) → sound true h ≡ true → Asks s.slug true h (bring_up login)
  bring_up-Asks login h e =
      go_on s.slug true h (pull_image postgres) _ (pull_image-Asks s.slug postgres h e)
        (λ h pulled e. split s.slug true h (not pulled) _ _ e (
          go_on s.slug true h start_stack _ (start_stack-Asks s.slug h e) (λ h up e.
            split s.slug true h (not up) _ _ e (
              go_on s.slug true h (wait_for_port login.port 90) _
                (wait_for_port-Asks s.slug true login.port 90 h e)
                (λ h taken e.
                  split s.slug true h taken _ _ (retry_login-Asks s.slug true 20 login h e) e)))))

  start_container-Asks :
      (h : List Event) → sound true h ≡ true → Asks s.slug true h (start_container s)
  unfolding start_container
  start_container-Asks h e =
      go_on s.slug true h (find_free_port 20 default_pg_port) _
        (find_free_port-Asks s.slug true 20 default_pg_port h e)
        (λ h port e. (
          tt,
          λ password. (
            tt,
            λ r.
                go_on s.slug true _ (bring_up (new_login s port password)) _
                  (bring_up-Asks (new_login s port password)
                    (called (write_compose (new_spec (new_login s port password)) s.slug) r
                      ∷ called random_password password
                      ∷ h)
                    e)
                  (λ h ready e. e),
          ),
        ))

  start_fresh-Asks : (h : List Event) → sound true h ≡ true → Asks s.slug true h (start_fresh s)
  start_fresh-Asks h e = (
    tt,
    λ agreed.
        Along-if (Allowed s.slug) (λ h o. sound true h ≡ true)
          (called (confirm (delete_data postgres)) agreed ∷ h) (not agreed) _ _ (λ _. e)
          (λ yes_agreed.
            go_on s.slug true (called (confirm (delete_data postgres)) agreed ∷ h)
              (remove_volume s.slug postgres) _
              (remove_volume-Asks s.slug true postgres
                (called (confirm (delete_data postgres)) agreed ∷ h) e (ground (arith, yes_agreed)))
              (λ h removed e. start_container-Asks h e)),
  )

  with_data-Asks :
      (url : Option (List ℕ)) (c : Choice) (h : List Event)
      → sound true h ≡ true
      → Asks s.slug true h (with_data s url c)
  with_data-Asks url cancel h e = e
  with_data-Asks url keep h e = keep_data-Asks url _ h e
  with_data-Asks url existing h e = start_fresh-Asks h e
  with_data-Asks url docker h e = start_fresh-Asks h e
  with_data-Asks url back h e = start_fresh-Asks h e
  with_data-Asks url fresh h e = start_fresh-Asks h e
  with_data-Asks url retry h e = start_fresh-Asks h e
  with_data-Asks url use_sqlite h e = start_fresh-Asks h e
  with_data-Asks url quit h e = start_fresh-Asks h e

  set_up_again-Asks :
      (url : Option (List ℕ)) (h : List Event)
      → sound true h ≡ true
      → Asks s.slug true h (set_up_again s url)
  set_up_again-Asks url h e =
      go_on s.slug true h (volume_exists s.slug postgres) _
        (volume_exists-Asks s.slug true postgres h e)
        (λ h has_volume e.
          split s.slug true h has_volume _ _
            (tt, λ c. with_data-Asks url c (called (choose (keep ∷ fresh ∷ cancel ∷ [])) c ∷ h) e)
            (start_container-Asks h e))

  reuse-Asks :
      (url : Option (List ℕ)) (h : List Event)
      → sound true h ≡ true
      → Asks s.slug true h (reuse s url)
  reuse-Asks none h e = e
  reuse-Asks (some url) h e =
      go_on s.slug true h (redeclare s (spec_from_url s url)) _ (declared (spec_from_url s url) h e)
        (λ h r e. e)
    where
      declared :
          (spec : Option ServiceSpec) (h : List Event)
          → sound true h ≡ true
          → Asks s.slug true h (redeclare s spec)
      declared none h e = e
      declared (some spec) h e = (tt, λ r. e)

  provision_with_docker-Asks :
      (h : List Event) → sound true h ≡ true → Asks s.slug true h (provision_with_docker s)
  unfolding provision_with_docker
  provision_with_docker-Asks h e = (
    tt,
    λ saved.
        go_on s.slug true (called (env_value database_key) saved ∷ h)
          (container_running s.slug postgres) _
          (container_running-Asks s.slug true postgres (called (env_value database_key) saved ∷ h)
            e)
          (λ h up e.
            go_on s.slug true h (if up then url_works (truthy saved) else done false) _
              (split s.slug true h up _ _ (url_works-Asks (truthy saved) h e) e)
              (λ h works e.
                split s.slug true h works _ _ (reuse-Asks (truthy saved) h e)
                  (set_up_again-Asks (truthy saved) h e))),
  )

containers-Asks :
    (s : Setting) (d : Bool) (h : List Event)
    → sound d h ≡ true
    → Asks s.slug d h (if not d then done none else provision_with_docker s)
containers-Asks s true h e = provision_with_docker-Asks s h e
containers-Asks s false h e = e

by_choice-Asks :
    (s : Setting) (d : Bool) (c : Choice) (h : List Event)
    → sound d h ≡ true
    → Asks s.slug d h (by_choice s d c)
by_choice-Asks s d back h e = e
by_choice-Asks s d existing h e =
    go_on s.slug d h (find_admin_silently s) _ (find_admin-Asks s d h e)
      (λ h admin e. with_admin-Asks s d admin h e)
by_choice-Asks s d docker h e = containers-Asks s d h e
by_choice-Asks s d keep h e = containers-Asks s d h e
by_choice-Asks s d fresh h e = containers-Asks s d h e
by_choice-Asks s d cancel h e = containers-Asks s d h e
by_choice-Asks s d retry h e = containers-Asks s d h e
by_choice-Asks s d use_sqlite h e = containers-Asks s d h e
by_choice-Asks s d quit h e = containers-Asks s d h e

pub setup_postgres-Asks :
    (s : Setting) (d : Bool) (h : List Event)
    → sound d h ≡ true
    → Asks s.slug d h (setup_postgres s d)
unfolding setup_postgres
setup_postgres-Asks s d h e = (
  tt,
  λ there. (
    tt,
    λ how.
        by_choice-Asks s d how
          (called (choose (menu there)) how ∷ called (probe default_pg_port) there ∷ h) e,
  ),
)
