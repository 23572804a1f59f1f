-- ===== src/Cli/Init/Brokers.antt =====
-- Setting a broker up keeps the rules of `queueway init`.
use queueway.Base.{
  arith, not, if◌then◌else◌, ◌≡◌, ℕ, Bool, Option, List, true, false, none, some, [], ◌∷◌,
}
use queueway.Cli.Machine.{
  delete_data, env_value, random_password, confirm, write_compose, done, probe, choose, Choice,
  ServiceSpec, existing, docker, back, keep, fresh, cancel, retry, use_sqlite, quit, rabbitmq,
}
use queueway.Cli.SetupBroker.{
  seconds_to_boot, rabbitmq_key, service_name, default_port, by_menu, start_service, with_queues,
  is_running, BrokerSetupResult, start_again, provision_broker, BrokerService, start_new,
  setup_broker, redis_service, rabbitmq_service,
}
use queueway.Cli.Machine.Runs.{called, Event}
use queueway.Cli.Init.Rules.{Allowed, Asks, sound}
use queueway.Cli.SetupPostgres.{truthy, Setting}
use queueway.Cli.Init.Steps.{
  wait_for_port-Asks, start_stack-Asks, remove_volume-Asks, pull_image-Asks, split,
  volume_exists-Asks, find_free_port-Asks, Along-if, container_running-Asks, go_on,
}
use queueway.Cli.Docker.{wait_for_port, start_stack, remove_volume, pull_image, volume_exists}
use queueway.Cli.Detect.{find_free_port}

module _ (s : Setting) where
  start_service-Asks :
      (service : BrokerService) (spec : ServiceSpec) (result : BrokerSetupResult) (h : List Event)
      → sound true h ≡ true
      → Asks s.slug true h (start_service s service spec result)
  start_service-Asks service spec result h e = (
    tt,
    λ r.
        go_on s.slug true (called (write_compose spec s.slug) r ∷ h)
          (pull_image (service_name service)) _
          (pull_image-Asks s.slug (service_name service) (called (write_compose spec s.slug) r ∷ h)
            e)
          (λ h pulled e. split s.slug true h (not pulled) _ _ e (
            go_on s.slug true h start_stack _ (start_stack-Asks s.slug h e) (λ h up e.
              split s.slug true h (not up) _ _ e (
                go_on s.slug true h (wait_for_port spec.port (seconds_to_boot service)) _
                  (wait_for_port-Asks s.slug true spec.port (seconds_to_boot service) h e)
                  (λ h ready e. e))))),
  )

  start_new-Asks :
      (service : BrokerService) (h : List Event)
      → sound true h ≡ true
      → Asks s.slug true h (start_new s service)
  unfolding start_new
  start_new-Asks redis_service h e =
      go_on s.slug true h (find_free_port 20 6379) _ (find_free_port-Asks s.slug true 20 6379 h e)
        (λ h port e. start_service-Asks redis_service _ _ h e)
  start_new-Asks rabbitmq_service h e =
      go_on s.slug true h (find_free_port 20 5672) _ (find_free_port-Asks s.slug true 20 5672 h e)
        (λ h port e.
          go_on s.slug true h (find_free_port 20 15672) _
            (find_free_port-Asks s.slug true 20 15672 h e)
            (λ h management_port e. (
              tt,
              λ password.
                  start_service-Asks rabbitmq_service _ _ (called random_password password ∷ h) e,
            )))

  start_again-Asks : (h : List Event) → sound true h ≡ true → Asks s.slug true h (start_again s)
  start_again-Asks h e = (
    tt,
    λ agreed.
        Along-if (Allowed s.slug) (λ h o. sound true h ≡ true)
          (called (confirm (delete_data rabbitmq)) agreed ∷ h) (not agreed) _ _ (λ _. e)
          (λ yes_agreed.
            go_on s.slug true (called (confirm (delete_data rabbitmq)) agreed ∷ h)
              (remove_volume s.slug rabbitmq) _
              (remove_volume-Asks s.slug true rabbitmq
                (called (confirm (delete_data rabbitmq)) agreed ∷ h) e (ground (arith, yes_agreed)))
              (λ h removed e. start_new-Asks rabbitmq_service h e)),
  )

  with_queues-Asks :
      (url : Option (List ℕ)) (c : Choice) (h : List Event)
      → sound true h ≡ true
      → Asks s.slug true h (with_queues s url c)
  with_queues-Asks url cancel h e = e
  with_queues-Asks url keep h e = e
  with_queues-Asks url existing h e = start_again-Asks h e
  with_queues-Asks url docker h e = start_again-Asks h e
  with_queues-Asks url back h e = start_again-Asks h e
  with_queues-Asks url fresh h e = start_again-Asks h e
  with_queues-Asks url retry h e = start_again-Asks h e
  with_queues-Asks url use_sqlite h e = start_again-Asks h e
  with_queues-Asks url quit h e = start_again-Asks h e

  is_running-Asks :
      (url : Option (List ℕ)) (h : List Event)
      → sound true h ≡ true
      → Asks s.slug true h (is_running s url)
  is_running-Asks none h e = e
  is_running-Asks (some url) h e = container_running-Asks s.slug true rabbitmq h e

  provision_broker-Asks :
      (service : BrokerService) (h : List Event)
      → sound true h ≡ true
      → Asks s.slug true h (provision_broker s service)
  unfolding provision_broker
  provision_broker-Asks redis_service h e = start_new-Asks redis_service h e
  provision_broker-Asks rabbitmq_service h e =
      go_on s.slug true h (volume_exists s.slug rabbitmq) _
        (volume_exists-Asks s.slug true rabbitmq h e)
        (λ h has_volume e.
          split s.slug true h (not has_volume) _ _ (start_new-Asks rabbitmq_service h e) (
            tt,
            λ saved.
                go_on s.slug true (called (env_value rabbitmq_key) saved ∷ h)
                  (is_running s (truthy saved)) _
                  (is_running-Asks (truthy saved) (called (env_value rabbitmq_key) saved ∷ h) e)
                  (λ h running e. split s.slug true h running _ _ e (
                    tt,
                    λ c.
                        with_queues-Asks (truthy saved) c
                          (called (choose (keep ∷ fresh ∷ cancel ∷ [])) c ∷ h) e,
                  )),
          ))

containers-Asks :
    (s : Setting) (service : BrokerService) (d : Bool) (h : List Event)
    → sound d h ≡ true
    → Asks s.slug d h (if not d then done none else provision_broker s service)
containers-Asks s service true h e = provision_broker-Asks s service h e
containers-Asks s service false h e = e

by_menu-Asks :
    (s : Setting) (service : BrokerService) (d : Bool) (c : Choice) (h : List Event)
    → sound d h ≡ true
    → Asks s.slug d h (by_menu s service d c)
by_menu-Asks s service d back h e = e
by_menu-Asks s service d existing h e = e
by_menu-Asks s service d docker h e = containers-Asks s service d h e
by_menu-Asks s service d keep h e = containers-Asks s service d h e
by_menu-Asks s service d fresh h e = containers-Asks s service d h e
by_menu-Asks s service d cancel h e = containers-Asks s service d h e
by_menu-Asks s service d retry h e = containers-Asks s service d h e
by_menu-Asks s service d use_sqlite h e = containers-Asks s service d h e
by_menu-Asks s service d quit h e = containers-Asks s service d h e

pub setup_broker-Asks :
    (s : Setting) (service : BrokerService) (d : Bool) (h : List Event)
    → sound d h ≡ true
    → Asks s.slug d h (setup_broker s service d)
unfolding setup_broker
setup_broker-Asks s service d h e = (
  tt,
  λ there. (
    tt,
    λ how.
        by_menu-Asks s service d how
          (called (choose (if there then existing ∷ docker ∷ back ∷ [] else docker ∷ back ∷ [])) how
            ∷ called (probe (default_port service)) there
            ∷ h)
          e,
  ),
)
