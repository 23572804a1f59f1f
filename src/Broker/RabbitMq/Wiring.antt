-- ===== src/Broker/RabbitMq/Wiring.antt =====
-- RabbitMQBroker.ts: setting a channel up, and subscribing on it.
use queueway.Broker.RabbitMq.Topology.{
  subscribe_all, empty_channel, bind_all, open_channel, Channel, ChannelCommand, Refusal, prefetch,
  declare_exchange, declare_queue, bind, consume, work, dead, events, dlx, carry_out, declare_work,
  bind_queue,
}
use queueway.Base.{
  refl, arith, not_connected, Option-cases, ◌>>◌, inr, continue, inl, err, Error, [], some, Exec,
  All, Result, ◌∷◌, none, ok, ℕ, Option, List, String, ◌≡◌,
}
use queueway.Broker.RabbitMq.Order.{
  here, tagged, there, Has, Consumes, grow, stopped, worked, Ready, Safe, add, IsBound,
}

record IsSetUp (n : ℕ) (es : List String) (p : Result (Unit {0}) × Channel) : Type 0 where
  safe : Safe n p.1.done
  has_consumers : p.0 ≡ ok tt → All (Consumes p.1) es
  ready : p.0 ≡ ok tt → Ready n p.1

gives_up :
    (n : ℕ) (es : List String) (c : Channel) → Safe n c.done → (e : Error) → IsSetUp n es (err e, c)
gives_up n es c s e = record {
  safe = s;
  has_consumers = λ p. ground (arith, p);
  ready = λ p. ground (arith, p);
}

module _ (refuses : List ChannelCommand → ChannelCommand → Option Refusal) where
  -- A command that is refused ends the function and leaves the channel as it was.
  carry_out_then :
      (P : Result (Unit {0}) × Channel → Type 0) (x : ChannelCommand) (n : Exec Channel (Unit {0}))
      (c : Channel)
      → ((e : Error) → P (err e, c))
      → P (n (record c { done = x ∷ c.done }))
      → P ((do carry_out refuses x; n) c)
  unfolding carry_out
  carry_out_then P x n c bad good = elim (Option-cases (refuses c.done x)) [
    | inl e ↦ rw e good
    | inr (r, e) ↦ rw e (bad not_connected)
  ]

  declare_work_then :
      (P : Result (Unit {0}) × Channel → Type 0) (e : String) (n : Exec Channel (Unit {0}))
      (c : Channel)
      → ((error : Error) → P (err error, c))
      → P (n (record c { done = declare_queue (work e) (some e) ∷ c.done }))
      → P ((do declare_work refuses e; n) c)
  unfolding carry_out declare_work
  declare_work_then P e n c bad good =
      worked (refuses c.done (declare_queue (work e) (some e))) P e n c bad good

  -- Binding a queue keeps a channel ready, whether it succeeds or not.
  bind_queue-IsBound :
      (n : ℕ) (e : String) (c : Channel) → Ready n c → IsBound n (e ∷ []) c (bind_queue refuses e c)
  unfolding bind_queue
  bind_queue-IsBound n e c r =
      let x1 = declare_queue (dead e) none in
      let x2 = bind (dead e) dlx e in
      let x3 = declare_queue (work e) (some e) in
      let x4 = bind (work e) events e in
      let r1 = grow n x1 c r r.«3» in
      let r2 = grow n x2 (add x1 c) r1 r.«3» in
      let r3 = grow n x3 (add x2 (add x1 c)) r2 r.«3» in
      let r4 = grow n x4 (add x3 (add x2 (add x1 c))) r3 r.«3» in
      let P = IsBound n (e ∷ []) c in
      carry_out_then P x1 _ c (stopped n (e ∷ []) c c r (λ x h. h)) (
        carry_out_then P x2 _ (add x1 c) (stopped n (e ∷ []) c (add x1 c) r1 (λ x h. there h)) (
          declare_work_then P e _ (add x2 (add x1 c))
            (stopped n (e ∷ []) c _ r2 (λ x h. there (there h)))
            (carry_out_then P x4 _ (add x3 (add x2 (add x1 c)))
              (stopped n (e ∷ []) c _ r3 (λ x h. there (there (there h))))
              (carry_out_then P (consume (work e)) _ (add x4 (add x3 (add x2 (add x1 c))))
                (stopped n (e ∷ []) c _ r4 (λ x h. there (there (there (there h)))))
                (tagged n e c r)))))

  bound_next :
      (n : ℕ) (e : String) (es : List String) (c : Channel) (p : Result (Unit {0}) × Channel)
      → IsBound n (e ∷ []) c p
      → ((c' : Channel) → Ready n c' → IsBound n es c' (bind_all refuses es c'))
      → IsBound n (e ∷ es) c (continue p.0 (λ _. bind_all refuses es) p.1)
  bound_next n e es c (err x, c') b f = stopped n (e ∷ es) c c' b.ready b.kept x
  bound_next n e es c (ok tt, c') b f =
      let rest = f c' b.ready in
      record {
        ready = rest.ready;
        has_consumers = λ q. (rest.kept _ (b.has_consumers refl).0, rest.has_consumers q);
        kept = λ x h. rest.kept x (b.kept x h);
      }

  bind_all-IsBound :
      (n : ℕ) (es : List String) (c : Channel) → Ready n c → IsBound n es c (bind_all refuses es c)
  unfolding bind_all
  bind_all-IsBound n [] c r = record { ready = r; has_consumers = λ _. tt; kept = λ x h. h }
  bind_all-IsBound n (e ∷ es) c r =
      bound_next n e es c (bind_queue refuses e c) (bind_queue-IsBound n e c r)
        (λ c' r'. bind_all-IsBound n es c' r')

  subscribe_all-Ready :
      (n : ℕ) (es : List String) (c : Channel) → Ready n c → Ready n (subscribe_all refuses es c)
  unfolding subscribe_all
  subscribe_all-Ready n [] c r = r
  subscribe_all-Ready n (e ∷ es) c r =
      subscribe_all-Ready n es (bind_queue refuses e c).1 (bind_queue-IsBound n e c r).ready

  set_up : (n : ℕ) (es : List String) → IsSetUp n es (open_channel refuses n es empty_channel)
  unfolding open_channel
  set_up n es =
      let P = IsSetUp n es in
      let c = empty_channel in
      carry_out_then P (prefetch n) _ c (gives_up n es c tt) (
        carry_out_then P (declare_exchange events) _ (add (prefetch n) c) (gives_up n es _ tt) (
          carry_out_then P (declare_exchange dlx) _
            (add (declare_exchange events) (add (prefetch n) c)) (gives_up n es _ tt)
            (let b =
                bind_all-IsBound n es
                  (add (declare_exchange dlx) (add (declare_exchange events) (add (prefetch n) c)))
                  (there (there here), there here, here, tt, tt) in
              record {
                safe = b.ready.«3»;
                has_consumers = b.has_consumers;
                ready = λ _. b.ready;
              })))

  -- Whatever RabbitMQ refuses while a channel is set up, no consumer is started before its
  -- dead-letter queue and its queue are declared and bound; if the set-up succeeds, every
  -- subscription has its consumer, and later subscriptions keep the first part.
  pub open_channel-Safe :
      (n : ℕ) (es later : List String)
      → let (r, c) = open_channel refuses n es empty_channel in
        Safe n c.done
        × (r ≡ ok tt
            → All (λ e. Has (consume (work e)) c.done) es
              × Safe n (subscribe_all refuses later c).done)
  unfolding open_channel
  open_channel-Safe n es later =
      let s = set_up n es in
      (s.safe, λ q. (s.has_consumers q, (subscribe_all-Ready n later _ (s.ready q)).«3»))
