-- ===== src/Broker/RabbitMq/Order.antt =====
-- RabbitMQBroker.ts: what stands before what among the commands of a channel.
use queueway.Broker.RabbitMq.Topology.{
  set_tag, Channel, ChannelCommand, Refusal, prefetch, declare_exchange, declare_queue, bind,
  consume, work, dead, events, dlx, precondition_failed, other, carried, explained,
}
use queueway.Broker.RabbitMq.{add_name}
use queueway.Base.{
  arith, not_connected, invalid, inr, continue, inl, err, Error, ◌==◌, [], Bool-cases, some, Exec,
  All, Result, ◌∷◌, none, ok, ℕ, Option, List, String, ◌≡◌,
}

pub data Has (x : ChannelCommand) : List ChannelCommand → Type 0 where
  here : {xs : List ChannelCommand} → Has x (x ∷ xs)
  there : {y : ChannelCommand} {xs : List ChannelCommand} → Has x xs → Has x (y ∷ xs)

-- What is there before jobs of an event are delivered: the bound on how many, both exchanges, and
-- both queues, each one bound to its exchange.
abbrev pub Wired : ℕ → String → List ChannelCommand → Type 0
Wired n e older =
    Has (prefetch n) older
    × Has (declare_exchange events) older
    × Has (declare_exchange dlx) older
    × Has (declare_queue (dead e) none) older
    × Has (bind (dead e) dlx e) older
    × Has (declare_queue (work e) (some e)) older
    × Has (bind (work e) events e) older

-- Every consumer of an event was started after that.
abbrev pub Safe : ℕ → List ChannelCommand → Type 0
Safe n [] = Unit
Safe n (consume (work e) ∷ older) = Wired n e older × Safe n older
Safe n (_ ∷ older) = Safe n older

abbrev pub Consumes : Channel → String → Type 0
Consumes c e = Has (consume (work e)) c.done

abbrev pub Ready : ℕ → Channel → Type 0
Ready n c =
    Has (prefetch n) c.done
    × Has (declare_exchange events) c.done
    × Has (declare_exchange dlx) c.done
    × Safe n c.done
    × All (Consumes c) c.consumer_tags

pub worked :
    (r : Option Refusal) (P : Result (Unit {0}) × Channel → Type 0) (e : String)
    (n : Exec Channel (Unit {0})) (c : Channel)
    → ((error : Error) → P (err error, c))
    → P (n (record c { done = declare_queue (work e) (some e) ∷ c.done }))
    → let p = explained r (carried (declare_queue (work e) (some e)) r c) in
      P (continue p.0 (λ _. n) p.1)
worked none P e n c bad good = good
worked (some precondition_failed) P e n c bad good = bad invalid
worked (some other) P e n c bad good = bad not_connected

pub All-map :
    (P Q : String → Type 0) (xs : List String) → ((x : String) → P x → Q x) → All P xs → All Q xs
All-map P Q [] f h = tt
All-map P Q (x ∷ xs) f (h, k) = (f x h, All-map P Q xs f k)

pub All-add_name :
    (P : String → Type 0) (e : String) (xs : List String) → P e → All P xs → All P (add_name e xs)
All-add_name P e [] p h = (p, tt)
All-add_name P e (x ∷ xs) p (h, k) = elim (Bool-cases (x == e)) [
  | inl t ↦ rw t (h, k)
  | inr f ↦ rw f (h, All-add_name P e xs p k)
]

abbrev pub add : ChannelCommand → Channel → Channel
add x c = record c { done = x ∷ c.done }

-- What a function that started on the channel `c` leaves.
pub record IsBound (n : ℕ) (es : List String) (c : Channel) (p : Result (Unit {0}) × Channel)
    : Type 0 where
  pub ready : Ready n p.1
  pub has_consumers : p.0 ≡ ok tt → All (Consumes p.1) es
  pub kept : (x : ChannelCommand) → Has x c.done → Has x p.1.done

pub grow :
    (n : ℕ) (x : ChannelCommand) (c : Channel) → Ready n c → Safe n (x ∷ c.done) → Ready n (add x c)
grow n x c (p, e, d, s, h) safe = (
  there p,
  there e,
  there d,
  safe,
  All-map (Consumes c) (Consumes (add x c)) c.consumer_tags (λ e k. there k) h,
)

pub stopped :
    (n : ℕ) (es : List String) (c c' : Channel)
    → Ready n c'
    → ((x : ChannelCommand) → Has x c.done → Has x c'.done)
    → (e : Error) → IsBound n es c (err e, c')
stopped n es c c' r k e = record { ready = r; has_consumers = λ p. ground (arith, p); kept = k }

-- The channel after the last step of `bind_queue`.
pub tagged :
    (n : ℕ) (e : String) (c : Channel)
    → Ready n c
    → let c' = add (consume (work e)) (
        add (bind (work e) events e) (
          add
            (declare_queue (work e) (some e))
            (add (bind (dead e) dlx e) (add (declare_queue (dead e) none) c)))) in
      IsBound n (e ∷ []) c (set_tag e c')
tagged n e c (p, x, d, s, h) =
    let five : (y : ChannelCommand) → Has y c.done → Has y _ =
      λ y k. there (there (there (there (there k)))) in
    record {
      ready = (
        five _ p,
        five _ x,
        five _ d,
        (
          (
            there (there (there (there p))),
            there (there (there (there x))),
            there (there (there (there d))),
            there (there (there here)),
            there (there here),
            there here,
            here,
          ),
          s,
        ),
        All-add_name _ e c.consumer_tags here
            (All-map (Consumes c) _ c.consumer_tags (λ y k. five _ k) h),
      );
      has_consumers = λ _. (here, tt);
      kept = five;
    }
