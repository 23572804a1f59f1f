-- ===== src/Broker/RabbitMq/Verdicts.antt =====
-- RabbitMQBroker.ts: what a delivery to the engine ends as.
use queueway.Broker.RabbitMq.{dead_lettered, deliver}
use queueway.Engine.Delivery.{Handler, deliver as deliver_job}
use queueway.Base.{◌≡◌, String, ℕ, refl, true, false, some}
use queueway.Store.Contract.{IsStore, IStore}
use queueway.Engine.World.{World, BrokerTraits}
use queueway.Retry.{RetryManager}
use queueway.Types.{Job}
use queueway.Engine.Delivery.Paths.{deliver_rejects_in_outage}

abbrev pub rabbitmq_traits : BrokerTraits
rabbitmq_traits = record {
  retains_pending_jobs = true;
  guarantees_redelivery = true;
  acknowledges_delivery = true;
}

-- A message that is delivered while the store is down, on a channel that stays open, goes to the
-- dead-letter queue, and nothing changes in the world, neither the record nor the calls of
-- handlers.
pub outage_dead_letters :
    {S : Type 0} {store : IStore S} (law : IsStore store) (retry : RetryManager)
    (sleep : ℕ → World S → World S) (publish : String → Handler S) (event : String)
    (handler : Handler S) (job : Job) (w : World S)
    → law.online w.store ≡ false
    → deliver true
        (deliver_job store rabbitmq_traits retry sleep publish event handler)
        (some job)
        w
      ≡ (dead_lettered, w)
unfolding deliver
outage_dead_letters law retry sleep publish event handler job w o =
    rw (deliver_rejects_in_outage law rabbitmq_traits retry sleep publish event handler job w o)
      refl
