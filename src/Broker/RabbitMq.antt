-- ===== src/Broker/RabbitMq.antt =====
-- packages/core/src/broker/RabbitMQBroker.ts: the connection as a state machine, and what becomes of a
-- delivered message. amqplib is behind how an attempt to connect ends; times are in milliseconds.
use queueway.Types.{Job, ComponentHealth, down, up}
use queueway.Base.{
  ltb, unreachable, ◌^◌, ◌+◌, ◌==◌, not, ◌||◌, ◌∷◌, ◌*◌, is_some, ◌&&◌, Option, min, List,
  if◌then◌else◌, take, ◌>>◌, Result, String, Exec, [], ℕ, Bool, not_connected, some, none, false,
  true, err, ok,
}
pub mod Reconnects
pub mod Keeping
pub mod Order
pub mod Safekeeping
pub mod Topology
pub mod Verdicts
pub mod Wiring
pub mod Worker

pub record RabbitMqBroker : Type 0 where
  pub connection : Bool
  pub channel : Bool
  pub subscriptions : List String
  pub consumer_tags : List String
  pub reconnect_timer : Option ℕ
  pub reconnect_attempt : ℕ
  pub shutting_down : Bool
  pub outage_logged : Bool

-- How far `connect` comes: `broken n` is a channel on which only `n` queues could be bound.
pub data Attempt : Type 0 where
  refused no_channel complete : Attempt
  broken : ℕ → Attempt

unfoldable pub report_outage : RabbitMqBroker → RabbitMqBroker
report_outage b = record b { outage_logged = true }

abbrev pub reconnect_base_ms : ℕ
reconnect_base_ms = 1000

abbrev pub reconnect_max_ms : ℕ
reconnect_max_ms = 30000

abbrev pub backoff : ℕ → ℕ
backoff attempt = min reconnect_max_ms (reconnect_base_ms * 2 ^ attempt)

-- `setupChannel`, in which the queues of the subscriptions are bound in their order.
unfoldable pub setup_channel : Attempt → Exec RabbitMqBroker (Unit {0})
setup_channel refused b = (err not_connected, b)
setup_channel no_channel b = (err not_connected, b)
setup_channel (broken n) b =
    (err not_connected, record b { channel = true; consumer_tags = take n b.subscriptions })
setup_channel complete b = (ok tt, record b { channel = true; consumer_tags = b.subscriptions })

abbrev after_setup : Exec RabbitMqBroker (Unit {0})
after_setup b = (ok tt, record b { reconnect_attempt = 0; outage_logged = false })

unfoldable pub connect : Attempt → Exec RabbitMqBroker (Unit {0})
connect refused b = (err not_connected, record b { shutting_down = false })
connect a b =
    (do setup_channel a; after_setup) (record b { shutting_down = false; connection = true })

-- `jitter` is the rounded product of the backoff with a random factor.
module _ (jitter : ℕ → ℕ) where
  unfoldable pub schedule_reconnect : RabbitMqBroker → RabbitMqBroker
  schedule_reconnect b = if is_some b.reconnect_timer || b.shutting_down then b else record b {
    reconnect_timer = some (jitter (backoff b.reconnect_attempt));
    reconnect_attempt = b.reconnect_attempt + 1;
  }

  -- `connection.on("close")`
  unfoldable pub connection_closed : RabbitMqBroker → RabbitMqBroker
  connection_closed b =
      if b.shutting_down
      then b
      else schedule_reconnect (record (report_outage b) { channel = false; connection = false })

  unfoldable pub force_reconnect : RabbitMqBroker → RabbitMqBroker
  force_reconnect b = schedule_reconnect (record b { connection = false })

  -- `channel.on("close")` of the channel in use; one that was replaced is ignored.
  unfoldable pub channel_closed : RabbitMqBroker → RabbitMqBroker
  channel_closed b =
      if b.shutting_down || not b.channel
      then b
      else force_reconnect (report_outage (record b { channel = false }))

  abbrev pub reconnected : Result (Unit {0}) × RabbitMqBroker → RabbitMqBroker
  reconnected (ok _, b) = b
  reconnected (err e, b) = schedule_reconnect (report_outage b)

  -- The callback of the reconnect timer.
  unfoldable pub timer_fired : Attempt → RabbitMqBroker → RabbitMqBroker
  timer_fired a b =
      let b' : RabbitMqBroker = record b { reconnect_timer = none } in
      if b.shutting_down then b' else reconnected (connect a b')

-- `Map.set` on the names: a new one comes last.
abbrev pub add_name : String → List String → List String
add_name e [] = e ∷ []
add_name e (x ∷ xs) = let rest = add_name e xs in if x == e then x ∷ xs else x ∷ rest

-- `binds` says whether the broker lets the new queue be bound; otherwise the error is logged.
unfoldable pub subscribe : (binds : Bool) → String → RabbitMqBroker → RabbitMqBroker
subscribe binds event b =
    let b' : RabbitMqBroker = record b { subscriptions = add_name event b.subscriptions } in
    if b.channel && binds then record b' { consumer_tags = add_name event b.consumer_tags } else b'

unfoldable pub disconnect : RabbitMqBroker → RabbitMqBroker
disconnect b = record b {
  shutting_down = true;
  reconnect_timer = none;
  channel = false;
  connection = false;
  consumer_tags = [];
}

-- `withTimeout`, on a promise that settles after some time, or never.
unfoldable pub bounded : {A : Type 0} → (ms : ℕ) → Option (ℕ × Result A) → Result A
bounded ms none = err unreachable
bounded ms (some (t, r)) = if ltb t ms then r else err unreachable

abbrev settled_ok : {A : Type 0} → Result A → Bool
settled_ok (ok a) = true
settled_ok (err e) = false

abbrev pub health_timeout_ms : ℕ
health_timeout_ms = 2000

-- `exchange` is when and how the check of the exchange settles.
unfoldable pub check_health :
    (exchange : Option (ℕ × Result (Unit {0}))) → RabbitMqBroker → ComponentHealth
check_health exchange b = record {
  status =
      if b.connection && b.channel && settled_ok (bounded health_timeout_ms exchange)
      then up
      else down;
  kind = none;
}

-- `publish`, which stays open as long as RabbitMQ has not confirmed the message.
unfoldable pub publish :
    (confirm : Option (Result (Unit {0}))) → RabbitMqBroker → Option (Result (Unit {0}))
publish confirm b = if b.channel then confirm else some (err not_connected)

-- What a delivered message ends as: removed, in the dead-letter queue of its event, or back in its
-- queue since the channel is gone.
pub data Verdict : Type 0 where
  acked dead_lettered requeued : Verdict

abbrev pub if_open : Bool → Verdict → Verdict
if_open true v = v
if_open false v = requeued

abbrev pub verdict_of : {A : Type 0} → Result A → Verdict
verdict_of (ok a) = acked
verdict_of (err e) = dead_lettered

-- `deliver`, on a parsed message or one that cannot be parsed; `is_open` is whether the channel is still
-- there when the handler is done.
unfoldable pub deliver :
    {W : Type 0} → (is_open : Bool) → (Job → Exec W (Unit {0})) → Option Job → W → Verdict × W
deliver is_open handler none w = (if_open is_open dead_lettered, w)
deliver is_open handler (some job) w =
    (if_open is_open (verdict_of (handler job w).0), (handler job w).1)
