-- ===== src/Cli/Init/Rules.antt =====
-- What `queueway init` may do, by what was asked and answered before.
use queueway.Base.{false, true, [], ◌∷◌, ◌||◌, not, ◌≡◌, ℕ, ◌&&◌, List, Bool}
use queueway.Cli.EnvFile.{all_owned}
use queueway.Cli.Docker.{volume_name, container_name}
use queueway.Cli.Machine.{
  ServiceName, Wizard, Effect, command, confirm, delete_data, start_docker, write_env, ignore_env,
  write_config, write_jobs, volume_rm, rm_container, docker_pull, compose_up, docker_image_ls,
  docker_compose_version, postgres, redis, rabbitmq,
}
use queueway.Cli.Machine.Runs.{called, Event, Along}
use queueway.Cli.Init.{needs_postgres, is_multi}

abbrev same_service : ServiceName → ServiceName → Bool
same_service postgres postgres = true
same_service redis redis = true
same_service rabbitmq rabbitmq = true
same_service _ _ = false

-- The last confirmation that was asked for is that of deleting this service's data, and it was given.
abbrev pub confirmed : ServiceName → List Event → Bool
confirmed service [] = false
confirmed service (called (confirm (delete_data other)) agreed ∷ h) =
    same_service other service && agreed
confirmed service (called (confirm start_docker) agreed ∷ h) = false
confirmed service (called c r ∷ h) = confirmed service h

abbrev pub images_listed : List Event → Bool
images_listed [] = false
images_listed (called (command docker_image_ls) output ∷ h) = output.exit_ok || images_listed h
images_listed (called c r ∷ h) = images_listed h

abbrev pub compose_found : List Event → Bool
compose_found [] = false
compose_found (called (command docker_compose_version) output ∷ h) =
    output.exit_ok || compose_found h
compose_found (called c r ∷ h) = compose_found h

-- Nothing of the project was written but the compose file.
abbrev pub untouched : List Event → Bool
untouched [] = true
untouched (called (write_env vars) r ∷ h) = false
untouched (called ignore_env r ∷ h) = false
untouched (called (write_config b s) r ∷ h) = false
untouched (called write_jobs r ∷ h) = false
untouched (called c r ∷ h) = untouched h

abbrev pub configured : List Event → Bool
configured [] = false
configured (called (write_config b s) r ∷ h) = true
configured (called c r ∷ h) = configured h

abbrev pub docker_seen : List Event → Bool
docker_seen h = images_listed h && compose_found h

abbrev pub Allowed : List ℕ → List Event → Effect → Type 0
Allowed slug h (command (volume_rm v)) =
    (service : ServiceName) × (v ≡ volume_name slug service) × (confirmed service h ≡ true)
Allowed slug h (command (rm_container c)) =
    (service : ServiceName) × (c ≡ container_name slug service) × (confirmed service h ≡ true)
Allowed slug h (command (docker_pull service)) = docker_seen h ≡ true
Allowed slug h (command compose_up) = docker_seen h ≡ true
Allowed slug h (write_env vars) = all_owned vars ≡ true
Allowed slug h (write_config broker store) = (not (is_multi broker) || needs_postgres store) ≡ true
Allowed slug h c = Unit

-- While the setup asks: nothing is written, and Docker is there where the setup counts on it.
abbrev pub sound : Bool → List Event → Bool
sound docker_ready h = untouched h && (not docker_ready || docker_seen h)

abbrev pub Asks {ℓ} : {A : Type ℓ} → List ℕ → Bool → List Event → Wizard A → Type 0
Asks slug d h w = Along (Allowed slug) (λ h o. sound d h ≡ true) h w
