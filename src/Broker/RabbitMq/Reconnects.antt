-- ===== src/Broker/RabbitMq/Reconnects.antt =====
-- RabbitMQBroker.ts: losing a connection or a channel, and coming back.
use queueway.Broker.RabbitMq.{
  add_name, reconnected, broken, complete, no_channel, refused, force_reconnect, report_outage,
  setup_channel, channel_closed, schedule_reconnect, RabbitMqBroker, connection_closed, timer_fired,
  connect, disconnect, Attempt, subscribe,
}
use queueway.Base.{
  eq_refl, none, false, includes, not, inr, inl, Bool-cases, [], if◌then◌else◌, arith, is_some, ◌∷◌,
  ◌||◌, String, List, ◌≡◌, Bool, ℕ, refl, true,
}

pub data Event : Type 0 where
  connection_lost channel_lost disconnected : Event
  timer : Attempt → Event
  subscribed : Bool → String → Event

-- One event; a timer that is not set does not fire.
unfoldable pub step : (ℕ → ℕ) → Event → RabbitMqBroker → RabbitMqBroker
step jitter connection_lost b = connection_closed jitter b
step jitter channel_lost b = channel_closed jitter b
step jitter disconnected b = disconnect b
step jitter (timer a) b = if is_some b.reconnect_timer then timer_fired jitter a b else b
step jitter (subscribed binds event) b = subscribe binds event b

unfoldable pub run : (ℕ → ℕ) → List Event → RabbitMqBroker → RabbitMqBroker
run jitter [] b = b
run jitter (e ∷ es) b = run jitter es (step jitter e b)

-- It has a channel, a timer that will try again, or it was told to stop.
abbrev pub recovers : RabbitMqBroker → Bool
recovers b = b.channel || is_some b.reconnect_timer || b.shutting_down

schedule-recovers :
    (jitter : ℕ → ℕ) (b : RabbitMqBroker) → recovers (schedule_reconnect jitter b) ≡ true
unfolding schedule_reconnect
schedule-recovers jitter b = ground arith

reconnected-recovers :
    (jitter : ℕ → ℕ) (a : Attempt) (b : RabbitMqBroker)
    → recovers (reconnected jitter (connect a b)) ≡ true
unfolding connect setup_channel
reconnected-recovers jitter refused b = schedule-recovers jitter _
reconnected-recovers jitter no_channel b = schedule-recovers jitter _
reconnected-recovers jitter complete b = refl
reconnected-recovers jitter (broken n) b = schedule-recovers jitter _

timer-recovers :
    (jitter : ℕ → ℕ) (a : Attempt) (b : RabbitMqBroker) → recovers (timer_fired jitter a b) ≡ true
unfolding timer_fired
timer-recovers jitter a b = elim (Bool-cases b.shutting_down) [
  | inl e ↦ rw e (ground arith)
  | inr e ↦ rw e (reconnected-recovers jitter a _)
]

step-recovers :
    (jitter : ℕ → ℕ) (e : Event) (b : RabbitMqBroker)
    → recovers b ≡ true
    → recovers (step jitter e b) ≡ true
unfolding step connection_closed channel_closed force_reconnect disconnect subscribe report_outage
step-recovers jitter connection_lost b h = elim (Bool-cases b.shutting_down) [
  | inl e ↦ rw e (ground arith)
  | inr e ↦ rw e (schedule-recovers jitter _)
]
step-recovers jitter channel_lost b h = elim (Bool-cases (b.shutting_down || not b.channel)) [
  | inl e ↦ rw e h
  | inr e ↦ rw e (schedule-recovers jitter _)
]
step-recovers jitter disconnected b h = refl
step-recovers jitter (timer a) b h = ground (arith, h, timer-recovers jitter a b)
step-recovers jitter (subscribed binds event) b h = ground (arith, h)

-- After any events, among them lost connections and channels, failed attempts and a disconnect, a
-- RabbitMQ broker that had a channel, had set its timer or was told to stop still has a channel,
-- has set its timer, or was told to stop.
pub run-recovers :
    (jitter : ℕ → ℕ) (es : List Event) (b : RabbitMqBroker)
    → recovers b ≡ true
    → recovers (run jitter es b) ≡ true
unfolding run
run-recovers jitter [] b h = h
run-recovers jitter (e ∷ es) b h =
    run-recovers jitter es (step jitter e b) (step-recovers jitter e b h)

includes-add_name :
    (e x : String) (xs : List String) → includes e xs ≡ true → includes e (add_name x xs) ≡ true
includes-add_name e x (y ∷ ys) h = ground (arith, h, includes-add_name e x ys)
includes-add_name e x [] h = ground (arith, h)

schedule_keeps :
    (jitter : ℕ → ℕ) (b : RabbitMqBroker)
    → (schedule_reconnect jitter b).subscriptions ≡ b.subscriptions
unfolding schedule_reconnect
schedule_keeps jitter b = ground arith

reconnected_keeps :
    (jitter : ℕ → ℕ) (a : Attempt) (b : RabbitMqBroker)
    → (reconnected jitter (connect a b)).subscriptions ≡ b.subscriptions
unfolding connect setup_channel report_outage
reconnected_keeps jitter refused b = schedule_keeps jitter _
reconnected_keeps jitter no_channel b = schedule_keeps jitter _
reconnected_keeps jitter complete b = refl
reconnected_keeps jitter (broken n) b = schedule_keeps jitter _

timer_keeps :
    (jitter : ℕ → ℕ) (a : Attempt) (b : RabbitMqBroker)
    → (timer_fired jitter a b).subscriptions ≡ b.subscriptions
unfolding timer_fired
timer_keeps jitter a b =
    ground (arith, reconnected_keeps jitter a (record b { reconnect_timer = none }))

step_keeps :
    (jitter : ℕ → ℕ) (event : String) (e : Event) (b : RabbitMqBroker)
    → includes event b.subscriptions ≡ true
    → includes event (step jitter e b).subscriptions ≡ true
unfolding step connection_closed channel_closed force_reconnect disconnect subscribe report_outage
    schedule_reconnect
step_keeps jitter event connection_lost b h = ground (arith, h)
step_keeps jitter event channel_lost b h = ground (arith, h)
step_keeps jitter event disconnected b h = h
step_keeps jitter event (timer a) b h = ground (arith, h, timer_keeps jitter a b)
step_keeps jitter event (subscribed binds x) b h =
    ground (arith, includes-add_name event x b.subscriptions h)

run_keeps :
    (jitter : ℕ → ℕ) (event : String) (es : List Event) (b : RabbitMqBroker)
    → includes event b.subscriptions ≡ true
    → includes event (run jitter es b).subscriptions ≡ true
unfolding run
run_keeps jitter event [] b h = h
run_keeps jitter event (e ∷ es) b h =
    run_keeps jitter event es (step jitter e b) (step_keeps jitter event e b h)

includes-add_self : (e : String) (xs : List String) → includes e (add_name e xs) ≡ true
includes-add_self e [] = rw (eq_refl e) refl
includes-add_self e (x ∷ xs) = ground (arith, includes-add_self e xs)

subscribe_adds :
    (binds : Bool) (event : String) (b : RabbitMqBroker)
    → includes event (subscribe binds event b).subscriptions ≡ true
unfolding subscribe
subscribe_adds binds event b = ground (arith, includes-add_self event b.subscriptions)

complete_replays :
    (jitter : ℕ → ℕ) (event : String) (b : RabbitMqBroker)
    → b.shutting_down ≡ false
    → includes event b.subscriptions ≡ true
    → let back = timer_fired jitter complete b in
      (back.channel ≡ true)
      × (back.reconnect_attempt ≡ 0)
      × (includes event back.consumer_tags ≡ true)
unfolding timer_fired connect setup_channel
complete_replays jitter event b o h = rw o (refl, refl, h)

-- A subscription is never forgotten: after any events that follow it, if the broker was not told
-- to stop, an attempt of the timer that succeeds leaves it with a channel, a backoff that starts
-- anew, and a consumer for the subscription.
pub reconnect_replays :
    (jitter : ℕ → ℕ) (event : String) (binds : Bool) (es : List Event) (b : RabbitMqBroker)
    → let lost = run jitter es (subscribe binds event b) in
      lost.shutting_down ≡ false
      → let back = timer_fired jitter complete lost in
        (back.channel ≡ true)
        × (back.reconnect_attempt ≡ 0)
        × (includes event back.consumer_tags ≡ true)
reconnect_replays jitter event binds es b o =
    complete_replays jitter event (run jitter es (subscribe binds event b)) o
      (run_keeps jitter event es (subscribe binds event b) (subscribe_adds binds event b))
