-- ===== src/Broker/RabbitMq/Worker.antt =====
-- A worker of Queueway.ts on RabbitMQ as one system: the engine's operations, the queues, the retry
-- timers, and crashes, in any order. The queues of the published events are there (`bindQueue`).
use queueway.Base.{
  ℕ, zero, suc, String, Bool, true, ◌&&◌, List, [], ◌∷◌, ◌++◌, Option, none, some, if◌then◌else◌,
  not,
}
use queueway.Types.{Job, processing}
use queueway.Store.Contract.{IStore}
use queueway.Retry.{RetryManager}
use queueway.Engine.World.{World, already_finished, enqueue, job_exists, set_status}
use queueway.Engine.Delivery.{Handler, call, deliver as deliver_job, fire_timer}
use queueway.Engine.Api.{delete_job, publish_job, recover_and_publish, retry_job, stop}
use queueway.Broker.RabbitMq.{Verdict, acked, dead_lettered, requeued, deliver}
use queueway.Broker.RabbitMq.Verdicts.{rabbitmq_traits}

abbrev pub Message : Type 0
Message = String × Job

-- `world.sent` is what is in the queues, and `dead` what is in the dead-letter queues.
pub record Node (S : Type 0) : Type 0 where
  pub world : World S
  pub dead : List Message

-- Where in a delivery the worker dies: before the handler, behind it, or before the acknowledgement.
pub data CrashPoint : Type 0 where
  before_handler after_handler before_ack : CrashPoint

-- What may happen next. A number is a place in the queues or among the timers; the handler is the
-- one that is subscribed to the event of the message.
pub data Event (S : Type 0) : Type 0 where
  publishes : (id : String) (now : ℕ) (event payload : String) → Event S
  delivers : ℕ → Handler S → Event S
  crashes : CrashPoint → ℕ → Handler S → Event S
  fires : ℕ → Event S
  deletes : String → Event S
  retries : String → Event S
  restarts : Event S

abbrev pub message_at : ℕ → List Message → Option Message
message_at i [] = none
message_at zero (m ∷ ms) = some m
message_at (suc i) (m ∷ ms) = message_at i ms

-- The message is out of its queue while it is unacknowledged.
abbrev pub taken_out : ℕ → List Message → List Message
taken_out i [] = []
taken_out zero (m ∷ ms) = ms
taken_out (suc i) (m ∷ ms) = m ∷ taken_out i ms

abbrev pub put_back : {S : Type 0} → Message → World S → World S
put_back m w = record w { sent = w.sent ++ m ∷ [] }

module _ {S : Type 0} (store : IStore S) (retry : RetryManager) where
  -- The channel's verdict on the message.
  abbrev pub conclude : Message → List Message → Verdict × World S → Node S
  conclude m dead (acked, w) = record { world = w; dead = dead }
  conclude m dead (dead_lettered, w) = record { world = w; dead = dead ++ m ∷ [] }
  conclude m dead (requeued, w) = record { world = put_back m w; dead = dead }

  abbrev pub callback : String → Handler S → Handler S
  callback = deliver_job store rabbitmq_traits retry (λ _ w. w) enqueue

  abbrev pub receive : Node S → (taken : World S) → Handler S → Option Message → Node S
  receive n taken handler none = n
  receive n taken handler (some (event, job)) =
      conclude (event, job) n.dead (deliver true (callback event handler) (some job) taken)

  -- The delivery gets to its handler.
  abbrev pub runs_handler : World S → Job → Bool
  runs_handler w job = job_exists store w job.id && not (already_finished store w job.id)

  -- What a delivery has done when the worker dies.
  unfoldable pub cut_off : CrashPoint → String → Handler S → Job → World S → World S
  cut_off before_handler event handler job w =
      if runs_handler w job then (set_status store job.id processing job.attempts w).1 else w
  cut_off after_handler event handler job w =
      if runs_handler w job
      then (call handler job (set_status store job.id processing job.attempts w).1).1
      else w
  cut_off before_ack event handler job w = (callback event handler job w).1

  -- RabbitMQ puts the message back; the timers of the process are gone.
  abbrev pub crash : CrashPoint → Node S → (taken : World S) → Handler S → Option Message → Node S
  crash point n taken handler none = record n { world = stop n.world }
  crash point n taken handler (some (event, job)) = record n {
    world = put_back (event, job) (stop (cut_off point event handler job taken));
  }

  unfoldable pub step : Event S → Node S → Node S
  unfolding cut_off
  step (publishes id now event payload) n = record n {
    world = (publish_job store enqueue id now event payload n.world).1;
  }
  step (delivers i handler) n =
      receive n (record n.world { sent = taken_out i n.world.sent }) handler
        (message_at i n.world.sent)
  step (crashes point i handler) n =
      crash point n (record n.world { sent = taken_out i n.world.sent }) handler
        (message_at i n.world.sent)
  step (fires i) n = record n { world = fire_timer store enqueue i n.world }
  step (deletes id) n = record n { world = (delete_job store id n.world).1 }
  step (retries id) n = record n { world = (retry_job store enqueue id n.world).1 }
  step restarts n = record n {
    world = (recover_and_publish store enqueue rabbitmq_traits (stop n.world)).1;
  }

  unfoldable pub run : List (Event S) → Node S → Node S
  run [] n = n
  run (e ∷ es) n = run es (step e n)
