-- ===== src/Tests/Deliveries.antt =====
-- Deliveries over the in-memory store, at concrete jobs and handlers.
use mathlib.Core.Option
use queueway.Store.Memory.{InMemoryStore, in_memory_store, update_job}
use queueway.Broker.Memory.{Subscriptions, publish, publish_within}
pub mod Setup
use queueway.Base.{true, err, thrown, arith, some, none, ok, ◌≡◌, [], ◌∷◌, refl}
use queueway.Tests.Deliveries.Setup.{
  found_in, found_running, is_online, runs, world, running, unreachable_world, contract, done,
  start, once, throws, flaky, flaky-Throws, flaky-Returns, starts, rests, no_wait, defaults,
  inline_traits, acking_traits, saved,
}
use queueway.Engine.World.{World, enqueue, set_status}
use queueway.Broker.Redis.{redis_traits, poll_once, brpop}
use queueway.Engine.Delivery.{failed_once, fire_timer, timer_at, deliver}
use queueway.Engine.Delivery.Waiting.{timer_follows_inline}
use queueway.Retry.{get_retry_delay, should_retry}
use queueway.Store.Sqlite.{SqliteStore, sqlite_store}
use queueway.Broker.Memory.Termination.{publish_fuel}
use queueway.Broker.Memory.Endings.{Ends, publish-Ends}
use queueway.Broker.Memory.Siblings.{publish_revives}
use queueway.Broker.Redis.Loss.{poll_once_loses}
use queueway.Store.Table.{find}
use queueway.Types.{retrying, pending, completed, failed, patch}
use queueway.Store.Sqlite.Laws.{sqlite_store-IsStore}
use queueway.Engine.Delivery.Outcomes.{marked}
use queueway.Engine.Delivery.Paths.{deliver_skips_finished}

timer_follows_inline_example :
    let (answer, after) =
      deliver in_memory_store acking_traits defaults no_wait enqueue "email" throws saved start in
    (answer ≡ ok tt)
    × (after.sent ≡ running.sent)
    × (contract.find after.store "a"
        ≡ Option.map (patch retrying (some 1)) (contract.find running.store "a"))
    × (timer_at 0 after.timers
        ≡ some (record { event_name = "email"; job = failed_once saved; delay = 2000 }))
    × (fire_timer in_memory_store enqueue 0 (no_wait 2000 after)
        ≡ (deliver in_memory_store inline_traits defaults no_wait enqueue "email" throws saved
            start).1)
unfolding set_status update_job should_retry get_retry_delay
timer_follows_inline_example =
    timer_follows_inline contract defaults no_wait enqueue "email" throws saved start running thrown
      acking_traits inline_traits (runs acking_traits defaults no_wait enqueue throws refl)
      (runs inline_traits defaults no_wait enqueue throws refl) refl refl refl (is_online running)
      refl (λ d ts w. refl)

poll_once_loses_example :
    poll_once "email"
      (deliver sqlite_store redis_traits defaults (λ _ w. w) enqueue "email" (λ _ w. (ok tt, w)))
      unreachable_world
    ≡ record unreachable_world { sent = [] }
unfolding brpop
poll_once_loses_example =
    let (law, _, up, _) = sqlite_store-IsStore in
    poll_once_loses law defaults (λ _ w. w) "email" (λ _ w. (ok tt, w)) saved [] unreachable_world
      refl (up unreachable_world.store) refl

abbrev one_handler : Subscriptions InMemoryStore
one_handler = record { entries = ("email", throws) ∷ [] }

abbrev file_world : World SqliteStore
file_world = record unreachable_world { store = record { online = true; rows = saved ∷ [] } }

abbrev failing_handler : Subscriptions SqliteStore
failing_handler = record { entries = ("email", λ job w. (err thrown, w)) ∷ [] }

publish_fuel_example :
    publish sqlite_store defaults (λ _ w. w) failing_handler 6 "email" saved file_world
    ≡ publish_within sqlite_store defaults
        (λ _ w. w)
        failing_handler
        (λ _ job w. (ok job, w))
        9
        "email"
        saved
        file_world
publish_fuel_example =
    publish_fuel defaults (λ _ w. w) failing_handler "email" (λ _ job w. (ok job, w)) 5 8 saved
      file_world (omega arith) (omega arith)

abbrev flaky_handler : Subscriptions InMemoryStore
flaky_handler = record { entries = ("email", flaky 2) ∷ [] }

publish-Ends_example :
    Ends contract defaults no_wait rests flaky_handler "email" saved saved completed 2 3
      (publish in_memory_store defaults no_wait flaky_handler 6 "email" saved start)
publish-Ends_example =
    publish-Ends contract defaults no_wait rests flaky_handler "email" (flaky 2) refl 2
      (flaky-Throws 2) (flaky-Returns 2) 5 saved saved 0 start starts (omega arith) (omega arith)
      (omega arith)

abbrev two_handlers : Subscriptions InMemoryStore
two_handlers = record { entries = ("email", throws) ∷ ("email", done) ∷ [] }

publish_revives_example :
    Ends contract defaults no_wait rests two_handlers "email" saved saved completed 5 10
      (publish in_memory_store defaults no_wait two_handlers 6 "email" saved start)
publish_revives_example =
    publish_revives contract defaults no_wait rests two_handlers "email" throws done refl
      (λ j r n w held. (thrown, refl, held)) (λ j r n w held. (refl, held)) 5 saved saved 0 start
      starts (omega arith) (omega arith)
