-- ===== src/Cli/Init/DockerFound.antt =====
-- What `resolveDocker` answers was seen of Docker.
use queueway.Base.{
  ◌+◌, if◌then◌else◌, arith, ltb, is_empty, ◌||◌, not, ◌&&◌, ◌≡◌, Option, ℕ, List, Bool, true,
  false, zero, suc, none, some, [], ◌∷◌,
}
use queueway.Cli.Detect.{
  wait_for_docker_daemon, with_images, succeeded, spawn_first, Platform, try_start_docker_desktop,
  detect_docker, DockerWaitResult, DockerStatus, wait_for_docker_rounds, win32, darwin, linux,
  other_unix,
}
use queueway.Cli.Machine.Runs.{Along-weaken, Along-bind, called, Event, Along, Then}
use queueway.Cli.Init.Rules.{images_listed, compose_found, Allowed, untouched}
use queueway.Cli.Init.Steps.{Along-if}
use queueway.Cli.Machine.{
  start_docker, confirm, done, pause, docker_image_ls, spawn, docker_info, docker_version,
  file_exists, command, clock,
}
use queueway.Cli.SetupPostgres.{Setting}
use queueway.Cli.Init.{if_started, is_linux, if_ready, if_stopped, wait_for_desktop, resolve_docker}

-- Nothing is written, and Compose and a ready engine were seen where they are counted on.
abbrev pub seen : Bool → Bool → List Event → Bool
seen compose daemon h =
    untouched h && (not compose || compose_found h) && (not daemon || images_listed h)

abbrev pub Found : List Event → Option DockerStatus → Type 0
Found h none = untouched h ≡ true
Found h (some status) = seen status.compose status.daemon h ≡ true

abbrev Waited : Bool → List Event → Option DockerWaitResult → Type 0
Waited compose h none = untouched h ≡ true
Waited compose h (some result) = seen compose result.ready h ≡ true

abbrev Launched : Bool → List Event → Option Bool → Type 0
Launched compose h o = seen compose false h ≡ true

module _ (slug : List ℕ) where
  detect_docker-Found :
      (h : List Event) → untouched h ≡ true → Along (Allowed slug) Found h detect_docker
  unfolding detect_docker
  detect_docker-Found h e = (
    tt,
    λ version.
        Along-if (Allowed slug) Found (called (command docker_version) version ∷ h)
          (not version.exit_ok) _ _ (λ _. ground (arith, e))
          (λ _. (
            tt,
            λ info.
                Along-bind (Allowed slug) Found
                  (called (command docker_info) info ∷ called (command docker_version) version ∷ h)
                  (if info.exit_ok then succeeded docker_image_ls else done false)
                  (with_images version.stdout info.exit_ok)
                  (Along-if (Allowed slug)
                    (Then (Allowed slug) Found (with_images version.stdout info.exit_ok))
                    (called (command docker_info) info
                      ∷ called (command docker_version) version
                      ∷ h)
                    info.exit_ok _ _ (λ i. (tt, λ images. (tt, λ compose. ground (arith, i, e))))
                    (λ i. (tt, λ compose. ground (arith, i, e)))),
          )),
  )

  wait_rounds-Found :
      (lower : List ℕ → List ℕ) (n deadline : ℕ) (last : List ℕ) (compose : Bool) (h : List Event)
      → seen compose false h ≡ true
      → Along (Allowed slug) (Waited compose) h (wait_for_docker_rounds lower n deadline last)
  unfolding wait_for_docker_rounds
  wait_rounds-Found lower zero deadline last compose h e = e
  wait_rounds-Found lower (suc n) deadline last compose h e = (
    tt,
    λ now.
        Along-if (Allowed slug) (Waited compose) (called clock now ∷ h) (not (ltb now deadline)) _ _
          (λ _. e)
          (λ _. (
            tt,
            λ info.
                Along-if (Allowed slug) (Waited compose)
                  (called (command docker_info) info ∷ called clock now ∷ h) info.exit_ok _ _
                  (λ _. (
                    tt,
                    λ images.
                        Along-if (Allowed slug) (Waited compose)
                          (called (command docker_image_ls) images
                            ∷ called (command docker_info) info
                            ∷ called clock now
                            ∷ h)
                          images.exit_ok _ _ (λ i. ground (arith, i, e))
                          (λ _. (
                            tt,
                            λ r.
                                wait_rounds-Found lower n deadline _ compose
                                  (called (pause 3000) r
                                    ∷ called (command docker_image_ls) images
                                    ∷ called (command docker_info) info
                                    ∷ called clock now
                                    ∷ h)
                                  e,
                          )),
                  ))
                  (λ _. (
                    tt,
                    λ r.
                        wait_rounds-Found lower n deadline _ compose
                          (called (pause 3000) r
                            ∷ called (command docker_info) info
                            ∷ called clock now
                            ∷ h)
                          e,
                  )),
          )),
  )

  spawn_first-Found :
      (exes : List (List ℕ)) (compose : Bool) (h : List Event)
      → seen compose false h ≡ true
      → Along (Allowed slug) (Launched compose) h (spawn_first exes)
  spawn_first-Found [] compose h e = e
  spawn_first-Found (exe ∷ more) compose h e =
      Along-if (Allowed slug) (Launched compose) h (is_empty exe) _ _
        (λ _. spawn_first-Found more compose h e)
        (λ _. (
          tt,
          λ found.
              Along-if (Allowed slug) (Launched compose) (called (file_exists exe) found ∷ h)
                (not found) _ _
                (λ _. spawn_first-Found more compose (called (file_exists exe) found ∷ h) e)
                (λ _. (
                  tt,
                  λ started.
                      Along-if (Allowed slug) (Launched compose)
                        (called (spawn exe) started ∷ called (file_exists exe) found ∷ h) started _
                        _ (λ _. e)
                        (λ _.
                          spawn_first-Found more compose
                            (called (spawn exe) started ∷ called (file_exists exe) found ∷ h) e),
                )),
        ))

  try_start-Found :
      (platform : Platform) (exes : List (List ℕ)) (compose : Bool) (h : List Event)
      → seen compose false h ≡ true
      → Along (Allowed slug) (Launched compose) h (try_start_docker_desktop platform exes)
  unfolding try_start_docker_desktop
  try_start-Found darwin exes compose h e = (tt, λ r. e)
  try_start-Found win32 exes compose h e = spawn_first-Found exes compose h e
  try_start-Found linux exes compose h e = e
  try_start-Found other_unix exes compose h e = e

after-Found :
    (status : DockerStatus) (ready : Bool) (h : List Event)
    → status.daemon ≡ false
    → seen status.compose ready h ≡ true
    → Found h (some (if ready then record status { daemon = true } else status))
after-Found status true h d e = e
after-Found status false h d e = rw d e

module _ (s : Setting) where
  wait_for_desktop-Found :
      (status : DockerStatus) (h : List Event)
      → status.daemon ≡ false
      → seen status.compose false h ≡ true
      → Along (Allowed s.slug) Found h (wait_for_desktop s status)
  unfolding wait_for_docker_daemon
  wait_for_desktop-Found status h d e = (
    tt,
    λ wanted.
        Along-if (Allowed s.slug) Found (called (confirm start_docker) wanted ∷ h) (not wanted) _ _
          (λ _. rw d e)
          (λ _.
            Along-bind (Allowed s.slug) Found (called (confirm start_docker) wanted ∷ h)
              (try_start_docker_desktop s.platform s.desktop) (if_started s status)
              (Along-weaken (Allowed s.slug) (Launched status.compose)
                (Then (Allowed s.slug) Found (if_started s status))
                (called (confirm start_docker) wanted ∷ h)
                (try_start_docker_desktop s.platform s.desktop) after_launch
                (try_start-Found s.slug s.platform s.desktop status.compose
                  (called (confirm start_docker) wanted ∷ h) e))),
  )
    where
      waited :
          (h : List Event) (o : Option DockerWaitResult)
          → Waited status.compose h o
          → Then (Allowed s.slug) Found (if_ready status) h o
      waited h none w = w
      waited h (some result) w = after-Found status result.ready h d w

      after_launch :
          (h : List Event) (o : Option Bool)
          → Launched status.compose h o
          → Then (Allowed s.slug) Found (if_started s status) h o
      after_launch h none w = ground (arith, w)
      after_launch h (some started) w =
          Along-if (Allowed s.slug) Found h (not started) _ _ (λ _. rw d w)
            (λ _. (
              tt,
              λ now.
                  Along-bind (Allowed s.slug) Found (called clock now ∷ h)
                    (wait_for_docker_rounds s.lower 41 (now + 120000) []) (if_ready status)
                    (Along-weaken (Allowed s.slug) (Waited status.compose)
                      (Then (Allowed s.slug) Found (if_ready status)) (called clock now ∷ h)
                      (wait_for_docker_rounds s.lower 41 (now + 120000) []) waited
                      (wait_rounds-Found s.slug s.lower 41 (now + 120000) [] status.compose
                        (called clock now ∷ h) w)),
            ))

  pub resolve_docker-Found :
      (h : List Event) → untouched h ≡ true → Along (Allowed s.slug) Found h (resolve_docker s)
  unfolding resolve_docker
  resolve_docker-Found h e = Along-bind (Allowed s.slug) Found h detect_docker (if_stopped s) (
      Along-weaken (Allowed s.slug) Found (Then (Allowed s.slug) Found (if_stopped s)) h
        detect_docker detected (detect_docker-Found s.slug h e))
    where
      detected :
          (h : List Event) (o : Option DockerStatus)
          → Found h o
          → Then (Allowed s.slug) Found (if_stopped s) h o
      detected h none w = w
      detected h (some status) w =
          Along-if (Allowed s.slug) Found h (status.cli && not status.daemon) _ _
            (λ stopped.
              Along-if (Allowed s.slug) Found h (is_linux s.platform) _ _ (λ _. w)
                (λ _.
                  wait_for_desktop-Found status h (ground (arith, stopped)) (ground (arith, w))))
            (λ _. w)
