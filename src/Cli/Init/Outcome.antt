-- ===== src/Cli/Init/Outcome.antt =====
-- What a run of `queueway init` has written at its end, and what it did before.
use queueway.Cli.Machine.{
  on_postgres, in_memory, on_redis, on_rabbitmq, done, ask_broker, is_tty, ask_store, StoreChoice,
  BrokerChoice, write_env, write_config, has_jobs_file, ignore_env, ◌>>=◌, Wizard,
}
use queueway.Base.{
  false, true, ◌&&◌, if◌then◌else◌, not, arith, ◌||◌, ℕ, Option, ◌≡◌, List, Bool, refl, none, some,
  [], ◌∷◌,
}
use queueway.Cli.Machine.Runs.{
  Along-weaken, Along-bind, Then, run-Along, Kept, run, Outside, called, Event, Along,
}
use queueway.Cli.Init.Rules.{Allowed, untouched, configured, sound}
use queueway.Cli.SetupPostgres.{Setting}
use queueway.Cli.Init.{
  plan_store, plan_all, resolve_docker, plan_broker, docker_ready, with_docker, needs_postgres,
  set_up_with, is_multi, store_for, ask_and_write, init, save_env, Plan, write_plan,
}
use queueway.Cli.Init.Planning.{plan_store-Planned, plan_broker-Planned, Planned}
use queueway.Cli.EnvFile.{all_owned}
use queueway.Cli.Init.Steps.{Along-if}
use queueway.Cli.Detect.{no_docker, DockerStatus}
use queueway.Cli.Init.DockerFound.{resolve_docker-Found, seen, Found}

abbrev pub Settled : List Event → Option (Unit {0}) → Type 0
Settled h o = (configured h || untouched h) ≡ true

untouched-of-sound : (d : Bool) (h : List Event) → sound d h ≡ true → Settled h none
untouched-of-sound d h e = ground (arith, e)

module _ (s : Setting) where
  save_env-bind :
      (vars : List (List ℕ × List ℕ)) (f : Unit {0} → Wizard {0} Unit) (h : List Event)
      → all_owned vars ≡ true
      → ((h : List Event) → Along (Allowed s.slug) Settled h (f tt))
      → Along (Allowed s.slug) Settled h (save_env vars >>= f)
  save_env-bind [] f h o k = k h
  save_env-bind (v ∷ vars) f h o k =
      rw o (o, λ a. (tt, λ b. k (called ignore_env b ∷ called (write_env (v ∷ vars)) a ∷ h)))

  write_plan-Settled :
      (d : Bool) (plan : Option Plan) (h : List Event)
      → Planned d h (some plan)
      → Along (Allowed s.slug) Settled h (write_plan plan)
  unfolding write_plan
  write_plan-Settled d none h e = untouched-of-sound d h e
  write_plan-Settled d (some plan) h (e, p) = save_env-bind plan.env _ h (ground (arith, p)) (λ h. (
    ground (arith, p),
    λ r. (
      tt,
      λ found.
          Along-if (Allowed s.slug) Settled
            (called has_jobs_file found ∷ called (write_config plan.broker plan.store) r ∷ h) found
            _ _ (λ _. refl) (λ _. (tt, λ r. refl)),
    ),
  ))

  with_docker-Settled :
      (broker : BrokerChoice) (store : StoreChoice) (status : DockerStatus) (h : List Event)
      → (not (is_multi broker) || needs_postgres store) ≡ true
      → Found h (some status)
      → Along (Allowed s.slug) Settled h (with_docker s broker store status)
  with_docker-Settled broker store status h m e =
      let d = docker_ready status in
      Along-bind (Allowed s.slug) Settled h (plan_all s d broker store) write_plan (
        Along-bind (Allowed s.slug) (Then (Allowed s.slug) Settled write_plan) h
          (plan_store s d broker store) (plan_broker s d)
          (Along-weaken (Allowed s.slug) (Planned d) _ h (plan_store s d broker store) stored (
            plan_store-Planned s d broker store h m
              (ready-sound status.compose status.daemon h e))))
    where
      written :
          (h : List Event) (o : Option (Option Plan))
          → Planned (docker_ready status) h o
          → Then (Allowed s.slug) Settled write_plan h o
      written h none p = untouched-of-sound (docker_ready status) h p
      written h (some plan) p = write_plan-Settled (docker_ready status) plan h p

      stored :
          (h : List Event) (o : Option (Option Plan))
          → Planned (docker_ready status) h o
          → Then
              (Allowed s.slug)
              (Then (Allowed s.slug) Settled write_plan)
              (plan_broker s (docker_ready status))
              h
              o
      stored h none p = untouched-of-sound (docker_ready status) h p
      stored h (some plan) p =
          Along-weaken (Allowed s.slug) (Planned (docker_ready status)) _ h
            (plan_broker s (docker_ready status) plan) written
            (plan_broker-Planned s (docker_ready status) plan h p)

      ready-sound : (c d : Bool) (h : List Event) → seen c d h ≡ true → sound (d && c) h ≡ true
      ready-sound true true h e = ground (arith, e)
      ready-sound true false h e = ground (arith, e)
      ready-sound false true h e = ground (arith, e)
      ready-sound false false h e = ground (arith, e)

  set_up_with-Settled :
      (broker : BrokerChoice) (store : StoreChoice) (h : List Event)
      → (not (is_multi broker) || needs_postgres store) ≡ true
      → untouched h ≡ true
      → Along (Allowed s.slug) Settled h (set_up_with s broker store)
  set_up_with-Settled broker store h m e =
      Along-bind (Allowed s.slug) Settled h
        (if needs_postgres store || is_multi broker then resolve_docker s else done no_docker)
        (with_docker s broker store)
        (Along-if (Allowed s.slug) (Then (Allowed s.slug) Settled (with_docker s broker store)) h
          (needs_postgres store || is_multi broker) _ _
          (λ _.
            Along-weaken (Allowed s.slug) Found _ h (resolve_docker s) resolved
              (resolve_docker-Found s h e))
          (λ _. with_docker-Settled broker store no_docker h m (ground (arith, e))))
    where
      resolved :
          (h : List Event) (o : Option DockerStatus)
          → Found h o
          → Then (Allowed s.slug) Settled (with_docker s broker store) h o
      resolved h none f = ground (arith, f)
      resolved h (some status) f = with_docker-Settled broker store status h m f

  init-Settled : (h : List Event) → untouched h ≡ true → Along (Allowed s.slug) Settled h (init s)
  unfolding init ask_and_write
  init-Settled h e = (
    tt,
    λ tty.
        Along-if (Allowed s.slug) Settled (called is_tty tty ∷ h) (not tty) _ _
          (λ _. (tt, λ r. ground (arith, e)))
          (λ _. (
            tt,
            λ broker.
                with_broker_choice broker (called ask_broker broker ∷ called is_tty tty ∷ h) e,
          )),
  )
    where
      with_broker_choice :
          (broker : BrokerChoice) (h : List Event)
          → untouched h ≡ true
          → Along (Allowed s.slug) Settled h (store_for broker >>= set_up_with s broker)
      with_broker_choice in_memory h e =
          (tt, λ store. set_up_with-Settled in_memory store (called ask_store store ∷ h) refl e)
      with_broker_choice on_redis h e = set_up_with-Settled on_redis on_postgres h refl e
      with_broker_choice on_rabbitmq h e = set_up_with-Settled on_rabbitmq on_postgres h refl e

  -- Whatever the user and the machine answer, a run of `queueway init` keeps its rules: it removes
  -- a container or its volume only if that service is the one whose deletion was confirmed last,
  -- it pulls an image or brings the containers up only after Docker listed its images and has
  -- Compose, it writes only variables of its own prefix to .env, and it configures Redis or
  -- RabbitMQ only together with PostgreSQL.
  pub init_keeps_rules : (o : Outside) → Kept (Allowed s.slug) (run o [] (init s)).1
  init_keeps_rules o =
      (run-Along (Allowed s.slug) Settled o [] (init s) tt (init-Settled [] refl)).0

  -- Whatever is answered, a run of `queueway init` that has not written the configuration file has
  -- written no other file of the project either, but for the compose file.
  pub init_settles :
      (o : Outside) → (configured (run o [] (init s)).1 || untouched (run o [] (init s)).1) ≡ true
  init_settles o = (run-Along (Allowed s.slug) Settled o [] (init s) tt (init-Settled [] refl)).1
