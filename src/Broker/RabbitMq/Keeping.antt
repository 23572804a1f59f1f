-- ===== src/Broker/RabbitMq/Keeping.antt =====
-- What a worker on RabbitMQ keeps between two events: a job that waits or runs is in a queue.
pub mod Deliveries
pub mod Operations
pub mod Recovery
use mathlib.Core.Option
use queueway.Base.{
  arith, ◌≡◌, ◌∙◌, ◌==◌, ◌||◌, ◌∷◌, ◌++◌, [], none, some, true, false, refl, sym, ap, inl, inr,
  zero, suc, eq_iff, if◌then◌else◌, Bool-cases, Bool, List, Option, String, ℕ,
}
use queueway.Types.{Job, JobStatus, patch, pending, processing}
use queueway.Store.Contract.{IStore, IsStore}
use queueway.Engine.World.{World}
use queueway.Engine.Delivery.Outcomes.{marked_before, marked, marked_lem}
use queueway.Broker.RabbitMq.Worker.{Message, message_at, taken_out}

-- The job waits for a worker, or one runs it.
abbrev pub is_open : JobStatus → Bool
is_open pending = true
is_open processing = true
is_open _ = false

-- A message of the job is in a queue.
abbrev pub waits : String → List Message → Bool
waits id [] = false
waits id ((_, job) ∷ ms) = job.id == id || waits id ms

pub waits-append :
    (id : String) (ms ns : List Message) → waits id ms ≡ true → waits id (ms ++ ns) ≡ true
waits-append id [] ns h = cc
waits-append id ((e, job) ∷ ms) ns h = ground (arith, waits-append id ms ns)

pub waits-last :
    (event : String) (job : Job) (ms : List Message) → waits job.id (ms ++ (event, job) ∷ []) ≡ true
waits-last event job [] = ground (arith, eq_iff job.id job.id)
waits-last event job ((e, j) ∷ ms) = ground (arith, waits-last event job ms)

pub waits-taken_out :
    (i : ℕ) (ms : List Message) (event id : String) (job : Job)
    → message_at i ms ≡ some (event, job)
    → waits id ms ≡ true
    → (waits id (taken_out i ms) || job.id == id) ≡ true
waits-taken_out i [] event id job e h = cc
waits-taken_out zero ((ev, j) ∷ ms) event id job e h = ground arith
waits-taken_out (suc i) ((ev, j) ∷ ms) event id job e h =
    ground (arith, waits-taken_out i ms event id job e)

-- Nothing is out of its queue.
abbrev pub nobody : String → Bool
nobody id = false

module _ {S : Type 0} {store : IStore S} (law : IsStore store) where
  open law use {find, online}

  -- Store and broker can be reached, and a job that waits or runs is in a queue, unless it is one
  -- of those whose message is out for a delivery.
  pub record IsSound (out : String → Bool) (w : World S) : Type 0 where
    pub up : online w.store ≡ true
    pub accepts : w.accepting ≡ true
    pub keyed : (id : String) (r : Job) → find w.store id ≡ some r → r.id ≡ id
    pub queued :
        (id : String) (r : Job)
        → find w.store id ≡ some r
        → is_open r.status ≡ true
        → (waits id w.sent || out id) ≡ true

  module _ (out out' : String → Bool) (id : String) (st : JobStatus) (n : ℕ) (w : World S)
      (s : IsSound out w) (others : (j : String) → (id == j) ≡ false → out j ≡ true → out' j ≡ true)
      (own : is_open st ≡ true → out' id ≡ true) where
    open s use {up, accepts, keyed, queued}

    marked-keyed : (j : String) (r : Job) → find (marked law id st n w).store j ≡ some r → r.id ≡ j
    marked-keyed j r e =
        let (r₀, old, q) = marked_before law id st n w up j r e in ground (arith, q, keyed j r₀ old)

    marked-queued :
        (j : String) (r : Job)
        → find (marked law id st n w).store j ≡ some r
        → is_open r.status ≡ true
        → (waits j w.sent || out' j) ≡ true
    marked-queued j r e o =
        let (r₀, old, q) = marked_before law id st n w up j r e in
        elim (Bool-cases (id == j)) [
          | inl same ↦
              let own_id : id ≡ j = (eq_iff id j).0 same in
              ground (arith, q, same, own_id, own, ap out' own_id)
          | inr other ↦ ground (arith, q, other, others j other, queued j r₀ old)
        ]

    -- Writing a status keeps what is sound, where an open one is written of a job that is out.
    pub marked-IsSound : IsSound out' (marked law id st n w)
    marked-IsSound =
        let (o, _, sent, _, _, acc) = marked_lem law id st n w up in
        record {
          up = o;
          accepts = acc ∙ accepts;
          keyed = marked-keyed;
          queued = λ j r e h. rw sent (marked-queued j r e h);
        }
