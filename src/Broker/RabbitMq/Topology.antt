-- ===== src/Broker/RabbitMq/Topology.antt =====
-- RabbitMQBroker.ts: the exchanges and queues that `setupChannel` and `bindQueue` ask RabbitMQ for, step
-- by step. What RabbitMQ answers is a parameter.
use queueway.Base.{
  String, Option, none, some, List, [], ◌∷◌, ℕ, Result, ok, err, invalid, not_connected, Exec, ◌>>◌,
  continue,
}
use queueway.Broker.RabbitMq.{add_name}

-- The topic exchange of the jobs, and the one of the dead letters.
pub data Exchange : Type 0 where
  events dlx : Exchange

-- `queueway.<event>` and `queueway.dead.<event>`.
pub data Queue : Type 0 where
  work dead : String → Queue

-- The calls on a channel; `declare_queue` has the routing key of the dead letters, if it gives one.
pub data ChannelCommand : Type 0 where
  prefetch : ℕ → ChannelCommand
  declare_exchange : Exchange → ChannelCommand
  declare_queue : Queue → Option String → ChannelCommand
  bind : Queue → Exchange → String → ChannelCommand
  consume : Queue → ChannelCommand

-- Why RabbitMQ refuses a command: 406, or anything else.
pub data Refusal : Type 0 where
  precondition_failed other : Refusal

-- The commands that a channel has carried out, the newest first, and its consumers.
pub record Channel : Type 0 where
  pub done : List ChannelCommand
  pub consumer_tags : List String

abbrev pub empty_channel : Channel
empty_channel = record { done = []; consumer_tags = [] }

abbrev pub carried : ChannelCommand → Option Refusal → Exec Channel (Unit {0})
carried x none c = (ok tt, record c { done = x ∷ c.done })
carried x (some r) c = (err not_connected, c)

-- The refusal of 406 is explained, any other is thrown as it is.
abbrev pub explained : Option Refusal → Result (Unit {0}) × Channel → Result (Unit {0}) × Channel
explained (some precondition_failed) (r, c) = (err invalid, c)
explained _ p = p

abbrev pub clear_tags : Exec Channel (Unit {0})
clear_tags c = (ok tt, record c { consumer_tags = [] })

abbrev pub set_tag : String → Exec Channel (Unit {0})
set_tag event c = (ok tt, record c { consumer_tags = add_name event c.consumer_tags })

-- `refuses` is what RabbitMQ says to a command after those that were carried out.
module _ (refuses : List ChannelCommand → ChannelCommand → Option Refusal) where
  unfoldable pub carry_out : ChannelCommand → Exec Channel (Unit {0})
  carry_out x c = carried x (refuses c.done x) c

  unfoldable pub declare_work : String → Exec Channel (Unit {0})
  declare_work event c =
      let x = declare_queue (work event) (some event) in
      explained (refuses c.done x) (carry_out x c)

  unfoldable pub bind_queue : String → Exec Channel (Unit {0})
  bind_queue event = do
    carry_out (declare_queue (dead event) none)
    carry_out (bind (dead event) dlx event)
    declare_work event
    carry_out (bind (work event) events event)
    carry_out (consume (work event))
    set_tag event

  unfoldable pub bind_all : List String → Exec Channel (Unit {0})
  bind_all [] c = (ok tt, c)
  bind_all (event ∷ rest) c =
      continue (bind_queue event c).0 (λ _. bind_all rest) (bind_queue event c).1

  -- `setupChannel` on a new channel.
  unfoldable pub open_channel : ℕ → List String → Exec Channel (Unit {0})
  open_channel prefetch_count subscriptions = do
    carry_out (prefetch prefetch_count)
    carry_out (declare_exchange events)
    carry_out (declare_exchange dlx)
    clear_tags
    bind_all subscriptions

  -- Subscriptions on an open channel, one after the other; one that fails is logged.
  unfoldable pub subscribe_all : List String → Channel → Channel
  subscribe_all [] c = c
  subscribe_all (event ∷ rest) c = subscribe_all rest (bind_queue event c).1
