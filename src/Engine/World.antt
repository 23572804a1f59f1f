-- ===== src/Engine/World.antt =====
-- What an engine works on: its store, the messages that its broker has taken, and its timers.
use queueway.Base.{
  ◌||◌, inl, inr, refl, Bool-cases, arith, ◌≡◌, ℕ, String, Bool, true, false, not, Option, none,
  some, List, [], ◌∷◌, ◌++◌, Result, ok, err, Exec, not_connected, if◌then◌else◌,
}
use queueway.Types.{
  JobStatus, completed, archived, pending, processing, retrying, Job, RecoverOptions,
}
use queueway.Store.Contract.{IStore}

-- packages/core/src/broker/IBroker.ts: what a broker says of itself.
pub record BrokerTraits : Type 0 where
  pub retains_pending_jobs : Bool
  pub guarantees_redelivery : Bool
  pub acknowledges_delivery : Bool

-- A backoff that waits outside a delivery.
pub record RetryTimer : Type 0 where
  pub event_name : String
  pub job : Job
  pub delay : ℕ

-- `sent` is what the broker has taken, oldest first; `accepting` is whether it takes the next
-- message; `handled` is the calls of handlers so far, oldest first.
pub record World (S : Type 0) : Type 0 where
  pub store : S
  pub accepting : Bool
  pub sent : List (String × Job)
  pub timers : List RetryTimer
  pub handled : List Job

-- `{ includePending: !retainsPendingJobs, includeProcessing: !guaranteesRedelivery }`
abbrev pub recover_options : BrokerTraits → RecoverOptions
recover_options t = record {
  include_pending = some (not t.retains_pending_jobs);
  include_processing = some (not t.guarantees_redelivery);
  stale_after_ms = none;
}

module _ {S : Type 0} where
  -- The publish of a broker outside the process (Redis, RabbitMQ).
  unfoldable pub enqueue : String → Job → Exec (World S) (Unit {0})
  enqueue event job w =
      if w.accepting
      then (ok tt, record w { sent = w.sent ++ (event, job) ∷ [] })
      else (err not_connected, w)

  pub enqueue_lem :
      (event : String) (job : Job) (w : World S)
      → w.accepting ≡ true
      → enqueue event job w ≡ (ok tt, record w { sent = w.sent ++ (event, job) ∷ [] })
  unfolding enqueue
  enqueue_lem event job w a = ground arith

  pub enqueue_refused :
      (event : String) (job : Job) (w : World S)
      → w.accepting ≡ false
      → enqueue event job w ≡ (err not_connected, w)
  unfolding enqueue
  enqueue_refused event job w a = ground arith

  abbrev pub with_store : World S → Result S → Result (Unit {0}) × World S
  with_store w (ok s) = (ok tt, record w { store = s })
  with_store w (err e) = (err e, w)

abbrev pub exists_in : Result (Option Job) → Bool
exists_in (ok none) = false
exists_in (ok (some _)) = true
exists_in (err _) = true

abbrev pub is_over : JobStatus → Bool
is_over completed = true
is_over archived = true
is_over _ = false

-- The job waits, is run, or waits for a retry.
abbrev pub is_unfinished : JobStatus → Bool
is_unfinished pending = true
is_unfinished processing = true
is_unfinished retrying = true
is_unfinished _ = false

-- If there is a record, and its status is one of these, then this holds.
abbrev pub implies : (JobStatus → Bool) → Option Job → Bool → Bool
implies p none b = true
implies p (some r) b = not (p r.status) || b

pub implies_lem :
    (p : JobStatus → Bool) (o : Option Job) (b : Bool)
    → ((r : Job) → o ≡ some r → p r.status ≡ true → b ≡ true)
    → implies p o b ≡ true
implies_lem p none b h = refl
implies_lem p (some r) b h = elim (Bool-cases (p r.status)) [
  | inl t ↦ rw t (h r refl t)
  | inr t ↦ rw t refl
]

abbrev pub finished_in : Result (Option Job) → Bool
finished_in (ok (some record_)) = is_over record_.status
finished_in _ = false

module _ {S : Type 0} (store : IStore S) where
  -- `this.store.updateJob(…)`
  unfoldable pub set_status : String → JobStatus → ℕ → Exec (World S) (Unit {0})
  set_status id st attempts w = with_store w (store.update_job w.store id st (some attempts))

  -- A lookup that fails does not count as a deletion.
  unfoldable pub job_exists : World S → String → Bool
  job_exists w id = exists_in (store.get_job w.store id)

  -- A lookup that fails does not count as finished.
  unfoldable pub already_finished : World S → String → Bool
  already_finished w id = finished_in (store.get_job w.store id)
