-- ===== src/Broker/RabbitMq/Safekeeping.antt =====
-- No job is lost on RabbitMQ: every run of a worker, with its crashes and restarts.
use queueway.Base.{
  arith, ◌≡◌, ◌∙◌, ◌++◌, ◌∷◌, [], map, none, some, true, refl, ap, inl, inr, Bool-cases, List,
  Option, String, ℕ,
}
use queueway.Types.{Job}
use queueway.Store.Contract.{IStore, IsStore, handed_back}
use queueway.Retry.{RetryManager}
use queueway.Engine.World.{implies, implies_lem, is_unfinished, World, enqueue}
use queueway.Engine.Delivery.{Handler}
use queueway.Engine.Api.{recover_and_publish, stop}
use queueway.Engine.Api.Laws.{recover_publishes}
use queueway.Broker.RabbitMq.{deliver}
use queueway.Broker.RabbitMq.Verdicts.{rabbitmq_traits}
use queueway.Broker.RabbitMq.Worker.{
  CrashPoint, Event, Message, Node, after_handler, before_ack, before_handler, callback, crash,
  crashes, cut_off, deletes, delivers, fires, message_at, publishes, receive, restarts, retries,
  run, runs_handler, step, taken_out,
}
use queueway.Broker.RabbitMq.Keeping.{IsSound, is_open, nobody, waits, waits-append}
use queueway.Broker.RabbitMq.Keeping.Deliveries.{
  Safe, begins, callback-IsSound, framed, only, taken_out-IsSound,
}
use queueway.Broker.RabbitMq.Keeping.Operations.{
  deletes-IsSound, fires-IsSound, loosened, publishes-IsSound, put_back-IsSound, retries-IsSound,
}
use queueway.Broker.RabbitMq.Keeping.Recovery.{Recovered, Recovers}

waits-handed_back :
    (id : String) (ms : List Message) (jobs : List Job)
    → handed_back id jobs ≡ true
    → waits id (ms ++ map (λ j. (j.event_name, j)) jobs) ≡ true
waits-handed_back id [] [] h = cc
waits-handed_back id [] (job ∷ jobs) h = ground (arith, waits-handed_back id [] jobs)
waits-handed_back id ((e, job) ∷ ms) jobs h = ground (arith, waits-handed_back id ms jobs h)

module _ {S : Type 0} {store : IStore S} (law : IsStore store) (recovers : Recovers law)
    (retry : RetryManager) where
  open law use {find, online}

  -- An id is new (`randomUUID`), and a handler leaves no job behind that waits in no queue.
  abbrev pub Allowed : Event S → Node S → Type 0
  Allowed (publishes id now event payload) n = find n.world.store id ≡ none
  Allowed (delivers i handler) n = Safe law handler
  Allowed (crashes point i handler) n = Safe law handler
  Allowed (fires i) n = Unit
  Allowed (deletes id) n = Unit
  Allowed (retries id) n = Unit
  Allowed restarts n = Unit

  abbrev pub AllAllowed : List (Event S) → Node S → Type 0
  AllAllowed [] n = Unit
  AllAllowed (e ∷ es) n = Allowed e n × AllAllowed es (step store retry e n)

  resumes :
      (w : World S) (s : IsSound law nobody w) (jobs : List Job) (id : String) (o : Option Job)
      → find w.store id ≡ o
      → (r : Job) → Recovered jobs id o r
      → is_unfinished r.status ≡ true
      → waits id (w.sent ++ map (λ j. (j.event_name, j)) jobs) ≡ true
  resumes w s jobs id o q r (r₀, before, _, rested, inl same) open_ =
      waits-append id w.sent (map (λ j. (j.event_name, j)) jobs)
        (ground (arith, s.queued id r₀ (q ∙ before), ap (λ (x : Job). x.status) same))
  resumes w s jobs id o q r (r₀, before, _, rested, inr handed) open_ =
      waits-handed_back id w.sent jobs handed

  -- After a restart a job that is not finished is in a queue.
  restart-queues :
      (w : World S)
      → IsSound law nobody w
      → let after = (recover_and_publish store enqueue rabbitmq_traits (stop w)).1 in
        IsSound law nobody after
        × ((id : String) (r : Job)
            → find after.store id ≡ some r
            → is_unfinished r.status ≡ true
            → waits id after.sent ≡ true)
  unfolding stop
  restart-queues w s =
      let (jobs, s', e, o, f) = recovers w.store s.up in
      rw (recover_publishes store rabbitmq_traits (record w { timers = [] }) jobs s' s.accepts e) (
        record {
          up = o;
          accepts = s.accepts;
          keyed = λ id r q.
              let (r₀, before, same_id, _, _) = f id r q in same_id ∙ s.keyed id r₀ before;
          queued = λ id r q open_.
              ground (arith, resumes w s jobs id (find w.store id) refl r (f id r q));
        },
        λ id r q open_. resumes w s jobs id (find w.store id) refl r (f id r q) open_,
      )

  receive-IsSound :
      (i : ℕ) (handler : Handler S) (n : Node S) (m : Option Message)
      → message_at i n.world.sent ≡ m
      → Safe law handler
      → IsSound law nobody n.world
      → let after =
          receive store retry n (record n.world { sent = taken_out i n.world.sent }) handler m in
        IsSound law nobody after.world × (after.dead ≡ n.dead)
  unfolding deliver
  receive-IsSound i handler n none e safe s = (s, refl)
  receive-IsSound i handler n (some (event, job)) e safe s =
      let taken = record n.world { sent = taken_out i n.world.sent } in
      let (resolves, sound) =
        callback-IsSound law retry event handler safe job taken
          (taken_out-IsSound law i event job n.world e s) in
      rw resolves (sound, refl)

  cut_off-IsSound :
      (point : CrashPoint) (event : String) (handler : Handler S) (job : Job) (w : World S)
      → Safe law handler
      → IsSound law (only job.id) w
      → IsSound law (only job.id) (cut_off store retry point event handler job w)
  unfolding cut_off
  cut_off-IsSound before_handler event handler job w safe s =
      elim (Bool-cases (runs_handler store retry w job)) [
        | inl t ↦ rw t (begins law job.id job.attempts w s)
        | inr t ↦ rw t s
      ]
  cut_off-IsSound after_handler event handler job w safe s =
      elim (Bool-cases (runs_handler store retry w job)) [
        | inl t ↦
            rw t (safe (only job.id) job _ (framed law _ _ _ (begins law job.id job.attempts w s)))
        | inr t ↦ rw t s
      ]
  cut_off-IsSound before_ack event handler job w safe s =
      loosened law job.id (callback store retry event handler job w).1
        (callback-IsSound law retry event handler safe job w s).1

  crash-IsSound :
      (point : CrashPoint) (i : ℕ) (handler : Handler S) (n : Node S) (m : Option Message)
      → message_at i n.world.sent ≡ m
      → Safe law handler
      → IsSound law nobody n.world
      → let after =
          crash store retry point n
            (record n.world { sent = taken_out i n.world.sent })
            handler
            m in
        IsSound law nobody after.world × (after.dead ≡ n.dead)
  unfolding stop
  crash-IsSound point i handler n none e safe s = (framed law n.world [] n.world.handled s, refl)
  crash-IsSound point i handler n (some (event, job)) e safe s =
      let taken = record n.world { sent = taken_out i n.world.sent } in
      let left = cut_off store retry point event handler job taken in
      (
        put_back-IsSound law event job (record left { timers = [] })
            (framed law left [] left.handled (
              cut_off-IsSound point event handler job taken safe
                (taken_out-IsSound law i event job n.world e s))),
        refl,
      )

  step-IsSound :
      (e : Event S) (n : Node S)
      → Allowed e n
      → IsSound law nobody n.world
      → IsSound law nobody (step store retry e n).world × ((step store retry e n).dead ≡ n.dead)
  unfolding step
  step-IsSound (publishes id now event payload) n a s =
      (publishes-IsSound law id now event payload n.world a s, refl)
  step-IsSound (delivers i handler) n a s =
      receive-IsSound i handler n (message_at i n.world.sent) refl a s
  step-IsSound (crashes point i handler) n a s =
      crash-IsSound point i handler n (message_at i n.world.sent) refl a s
  step-IsSound (fires i) n a s = (fires-IsSound law i n.world s, refl)
  step-IsSound (deletes id) n a s = (deletes-IsSound law id n.world s, refl)
  step-IsSound (retries id) n a s = (retries-IsSound law id n.world s, refl)
  step-IsSound restarts n a s = ((restart-queues n.world s).0, refl)

  run-IsSound :
      (es : List (Event S)) (n : Node S)
      → AllAllowed es n
      → IsSound law nobody n.world
      → IsSound law nobody (run store retry es n).world × ((run store retry es n).dead ≡ n.dead)
  unfolding run
  run-IsSound [] n a s = (s, refl)
  run-IsSound (e ∷ es) n (a, as_) s =
      let (s', d) = step-IsSound e n a s in
      let (s₂, d') = run-IsSound es (step store retry e n) as_ s' in (s₂, d' ∙ d)

  -- On a store and a RabbitMQ broker that stay reachable, after any events, in any order, among
  -- them crashes before, during and after a handler, manual retries, deletions and restarts, a job
  -- whose record is pending or processing has a message in a queue; after a restart so has one
  -- that is retrying; and nothing was moved to a dead-letter queue. The node starts like this, new
  -- ids are new, the handlers leave no job behind that is in no queue, and a recovery of the store
  -- hands back every retrying job, which then no longer is, and leaves the other records alone.
  pub nothing_is_lost :
      (es : List (Event S)) (n : Node S)
      → IsSound law nobody n.world
      → AllAllowed es n
      → (id : String)
      → let end = run store retry es n in
        let next = step store retry restarts end in
        (implies is_open (find end.world.store id) (waits id end.world.sent) ≡ true)
        × (implies is_unfinished (find next.world.store id) (waits id next.world.sent) ≡ true)
        × (end.dead ≡ n.dead)
  unfolding step
  nothing_is_lost es n s a id =
      let (s', d) = run-IsSound es n a s in
      let end = run store retry es n in
      (
        implies_lem is_open (find end.world.store id) _
            (λ r e o. ground (arith, s'.queued id r e o)),
        implies_lem is_unfinished _ _ ((restart-queues end.world s').1 id),
        d,
      )
