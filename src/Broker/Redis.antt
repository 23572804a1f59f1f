-- ===== src/Broker/Redis.antt =====
-- packages/core/src/broker/RedisBroker.ts. The Redis server is outside: its lists, with the jobs that
-- `LPUSH` put in front, are the `sent` of a world, oldest first, each under its event.
pub mod Loss
pub mod Polling
pub mod Reports
use mathlib.Core.Option
use queueway.Base.{
  [], ◌==◌, ◌∷◌, some, none, zero, Option, suc, if◌then◌else◌, false, List, true, ℕ, String,
}
use queueway.Engine.World.{World, BrokerTraits}
use queueway.Engine.Delivery.{Handler}
use queueway.Types.{Job}

abbrev pub redis_traits : BrokerTraits
redis_traits = record {
  retains_pending_jobs = true;
  guarantees_redelivery = false;
  acknowledges_delivery = false;
}

-- `BRPOP queueway:queue:<event>`: the oldest job of the event leaves its list.
unfoldable pub brpop : String → List (String × Job) → Option (Job × List (String × Job))
brpop event [] = none
brpop event ((e, job) ∷ rest) =
    let later : Option (Job × List (String × Job)) =
      Option.map (λ p. (p.0, (e, job) ∷ p.1)) (brpop event rest) in
    if e == event then some (job, rest) else later

-- One round of the polling loop: a timeout changes nothing, and an error of the handler is logged.
unfoldable pub poll_once : {S : Type 0} → String → Handler S → World S → World S
poll_once event handler w =
    if w.accepting
    then elim (brpop event w.sent) [
      | none ↦ w
      | some (job, left) ↦ (handler job (record w { sent = left })).1
    ]
    else w

-- `rounds` rounds of the loop.
unfoldable pub poll : {S : Type 0} → ℕ → String → Handler S → World S → World S
poll zero event handler w = w
poll (suc rounds) event handler w = poll rounds event handler (poll_once event handler w)
