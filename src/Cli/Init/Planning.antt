-- ===== src/Cli/Init/Planning.antt =====
-- What `queueway init` plans to write can be written, and nothing is written before.
use queueway.Base.{
  arith, not, ◌&&◌, ◌++◌, ℕ, ◌||◌, ◌≡◌, List, Option, Bool, refl, true, false, none, some, [], ◌∷◌,
}
use queueway.Cli.Machine.{
  choose, done, StoreChoice, Choice, BrokerChoice, existing, docker, back, keep, fresh, cancel,
  retry, use_sqlite, quit, sqlite, on_postgres, in_memory, on_redis, on_rabbitmq,
}
use queueway.Cli.Machine.Runs.{called, Event, Along}
use queueway.Cli.Init.Rules.{Allowed, sound}
use queueway.Cli.SetupPostgres.{truthy, Setting}
use queueway.Cli.Init.{
  redis_key, needs_postgres, store_plan, with_broker, is_multi, broker_of, with_url,
  without_postgres, management_var, plan_store, plan_broker, Plan,
}
use queueway.Cli.EnvFile.{is_owned, all_owned}
use queueway.Cli.SetupBroker.{
  rabbitmq_key, rabbitmq_service, redis_service, setup_broker, BrokerSetupResult,
}
use queueway.Cli.Init.Steps.{Asks-bind}
use queueway.Cli.SetupPostgres.Menu.{setup_postgres}
use queueway.Cli.Init.Databases.{setup_postgres-Asks}
use queueway.Cli.Init.Brokers.{setup_broker-Asks}

abbrev pub plan_ok : Plan → Bool
plan_ok plan = all_owned plan.env && (not (is_multi plan.broker) || needs_postgres plan.store)

abbrev pub Planned : Bool → List Event → Option (Option Plan) → Type 0
Planned d h none = sound d h ≡ true
Planned d h (some none) = sound d h ≡ true
Planned d h (some (some plan)) = (sound d h ≡ true) × (plan_ok plan ≡ true)

or_true : (b : Bool) → (b || true) ≡ true
or_true true = refl
or_true false = refl

all_owned-append :
    (a b : List (List ℕ × List ℕ))
    → all_owned a ≡ true
    → all_owned b ≡ true
    → all_owned (a ++ b) ≡ true
all_owned-append [] b ha hb = hb
all_owned-append ((k, v) ∷ a) b ha hb =
    ground (arith, ha, all_owned-append a b (ground (arith, ha)) hb)

all_owned-management : (port : Option ℕ) → all_owned (management_var port) ≡ true
all_owned-management none = refl
all_owned-management (some port) = refl

module _ (s : Setting) (d : Bool) where
  store_plan-Planned :
      (broker : BrokerChoice) (url : Option (List ℕ)) (h : List Event)
      → sound d h ≡ true
      → Along (Allowed s.slug) (Planned d) h (done (store_plan broker url))
  store_plan-Planned broker none h e = e
  store_plan-Planned broker (some url) h e = (e, or_true (not (is_multi broker)))

  without_postgres-Planned :
      (broker : BrokerChoice) (c : Choice) (h : List Event)
      → sound d h ≡ true
      → Along (Allowed s.slug) (Planned d) h (without_postgres s d broker c)
  without_postgres-Planned broker quit h e = e
  without_postgres-Planned broker retry h e =
      Asks-bind s.slug d (Planned d) h (setup_postgres s d) _ (setup_postgres-Asks s d h e)
        (λ h n. n) (λ h url e. store_plan-Planned broker (truthy url) h e)
  without_postgres-Planned broker existing h e = (e, refl)
  without_postgres-Planned broker docker h e = (e, refl)
  without_postgres-Planned broker back h e = (e, refl)
  without_postgres-Planned broker keep h e = (e, refl)
  without_postgres-Planned broker fresh h e = (e, refl)
  without_postgres-Planned broker cancel h e = (e, refl)
  without_postgres-Planned broker use_sqlite h e = (e, refl)

  with_url-Planned :
      (broker : BrokerChoice) (url : Option (List ℕ)) (h : List Event)
      → sound d h ≡ true
      → Along (Allowed s.slug) (Planned d) h (with_url s d broker url)
  with_url-Planned broker (some url) h e = store_plan-Planned broker (some url) h e
  with_url-Planned broker none h e = (
    tt,
    λ c.
        without_postgres-Planned broker c (called (choose (retry ∷ use_sqlite ∷ quit ∷ [])) c ∷ h)
          e,
  )

  pub plan_store-Planned :
      (broker : BrokerChoice) (store : StoreChoice) (h : List Event)
      → (not (is_multi broker) || needs_postgres store) ≡ true
      → sound d h ≡ true
      → Along (Allowed s.slug) (Planned d) h (plan_store s d broker store)
  unfolding plan_store
  plan_store-Planned broker sqlite h m e = (e, m)
  plan_store-Planned broker on_postgres h m e =
      Asks-bind s.slug d (Planned d) h (setup_postgres s d) _ (setup_postgres-Asks s d h e)
        (λ h n. n) (λ h url e. with_url-Planned broker (truthy url) h e)

  with_broker-Planned :
      (plan : Plan) (key : List ℕ) (result : Option BrokerSetupResult) (h : List Event)
      → is_owned key ≡ true
      → plan_ok plan ≡ true
      → sound d h ≡ true
      → Along (Allowed s.slug) (Planned d) h (with_broker plan key result)
  with_broker-Planned plan key none h k p e = (tt, λ r. e)
  with_broker-Planned plan key (some result) h k p e =
      let added =
        all_owned-append plan.env ((key, result.url) ∷ management_var result.management_port)
          (ground (arith, p)) (rw k (all_owned-management result.management_port)) in
      (e, rw added (ground (arith, p)))

  broker_of-Planned :
      (plan : Plan) (broker : BrokerChoice) (h : List Event)
      → plan_ok plan ≡ true
      → sound d h ≡ true
      → Along (Allowed s.slug) (Planned d) h (broker_of s d plan broker)
  broker_of-Planned plan in_memory h p e = (e, p)
  broker_of-Planned plan on_redis h p e =
      Asks-bind s.slug d (Planned d) h (setup_broker s redis_service d) _
        (setup_broker-Asks s redis_service d h e) (λ h n. n)
        (λ h result e. with_broker-Planned plan redis_key result h refl p e)
  broker_of-Planned plan on_rabbitmq h p e =
      Asks-bind s.slug d (Planned d) h (setup_broker s rabbitmq_service d) _
        (setup_broker-Asks s rabbitmq_service d h e) (λ h n. n)
        (λ h result e. with_broker-Planned plan rabbitmq_key result h refl p e)

  pub plan_broker-Planned :
      (plan : Option Plan) (h : List Event)
      → Planned d h (some plan)
      → Along (Allowed s.slug) (Planned d) h (plan_broker s d plan)
  unfolding plan_broker
  plan_broker-Planned none h e = e
  plan_broker-Planned (some plan) h (e, p) = broker_of-Planned plan plan.broker h p e
