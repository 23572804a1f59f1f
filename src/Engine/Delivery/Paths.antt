-- ===== src/Engine/Delivery/Paths.antt =====
-- Each path of a delivery of Queueway.ts, over any store that keeps the contract.
use mathlib.Core.Option
use queueway.Base.{
  ◌∙◌, Error, attempt, arith, ◌>>=◌, ◌>>◌, ok, unreachable, ◌&&◌, none, err, some, false, true, ◌≡◌,
  String, ℕ, refl,
}
use queueway.Store.Contract.{IsStore, IStore}
use queueway.Engine.World.{set_status, is_over, World, BrokerTraits}
use queueway.Retry.{RetryManager}
use queueway.Engine.Delivery.{on_failure, failed_once, settle, call, deliver, Handler}
use queueway.Types.{patch, completed, processing, Job}
use queueway.Engine.Delivery.Outcomes.{
  marked_lem, set_status_eq, set_status_down, already_finished_lem, already_finished_down,
  job_exists_lem, job_exists_down, marked,
}

module _ {S : Type 0} {store : IStore S} (law : IsStore store) (traits : BrokerTraits)
    (retry : RetryManager) (sleep : ℕ → World S → World S) (publish : String → Handler S)
    (event : String) (handler : Handler S) (job : Job) (w : World S) where
  open law use {find, online}

  -- A job whose record was deleted is not run, and nothing changes.
  pub deliver_skips_deleted :
      online w.store ≡ true
      → find w.store job.id ≡ none
      → deliver store traits retry sleep publish event handler job w ≡ (ok tt, w)
  unfolding deliver
  deliver_skips_deleted o e = rw (job_exists_lem law w job.id o, e) refl

  -- Where the broker redelivers by itself, the delivery of a job whose record is completed or
  -- archived does nothing.
  pub deliver_skips_finished :
      {r : Job}
      → online w.store ≡ true
      → traits.guarantees_redelivery ≡ true
      → find w.store job.id ≡ some r
      → is_over r.status ≡ true
      → deliver store traits retry sleep publish event handler job w ≡ (ok tt, w)
  unfolding deliver
  deliver_skips_finished {r} o g e f =
      rw (job_exists_lem law w job.id o, e, g, already_finished_lem law w job.id r o e, f) refl

  -- While the store is unreachable a delivery rejects before the handler is called, and nothing changes.
  pub deliver_rejects_in_outage :
      online w.store ≡ false
      → deliver store traits retry sleep publish event handler job w ≡ (err unreachable, w)
  unfolding deliver
  deliver_rejects_in_outage o =
      rw (job_exists_down law w job.id o, already_finished_down law w job.id o)
        (ground (arith, set_status_down law job.id processing job.attempts w o))

  -- The job is run: there is a record, and a broker that redelivers is not redelivering a finished job.
  abbrev pub Runs : Type 0
  Runs =
      (r : Job) × (online w.store ≡ true)
      × (find w.store job.id ≡ some r)
      × ((traits.guarantees_redelivery && is_over r.status) ≡ false)

  -- The world in which the handler is called.
  abbrev pub started : World S
  started = marked law job.id processing job.attempts w

  deliver_runs :
      Runs
      → deliver store traits retry sleep publish event handler job w
        ≡ (do
          r ← attempt (do call handler job; set_status store job.id completed job.attempts)
          settle store traits retry sleep publish event job r)
            started
  unfolding deliver
  deliver_runs (r, o, e, f) =
      rw (job_exists_lem law w job.id o, e, already_finished_lem law w job.id r o e, f)
        (rw (set_status_eq law job.id processing job.attempts w o) refl)

  -- When a handler returns, the delivery leaves the job that is still recorded completed with its
  -- attempts, and the messages and timers as the handler left them.
  pub deliver_completes :
      (w' : World S)
      → Runs
      → call handler job started ≡ (ok tt, w')
      → online w'.store ≡ true
      → let after = deliver store traits retry sleep publish event handler job w in
        (after ≡ (ok tt, marked law job.id completed job.attempts w'))
        × (find after.1.store job.id
            ≡ Option.map (patch completed (some job.attempts)) (find w'.store job.id))
        × (after.1.sent ≡ w'.sent)
        × (after.1.timers ≡ w'.timers)
  deliver_completes w' runs h o =
      let (_, f, s, t, _, _) = marked_lem law job.id completed job.attempts w' o in
      let e : deliver store traits retry sleep publish event handler job w
          ≡ (ok tt, marked law job.id completed job.attempts w') =
        deliver_runs runs ∙ rw (h, set_status_eq law job.id completed job.attempts w' o) refl in
      rw e (refl, f, s, t)

  -- The job after one more failed attempt, and what the delivery makes of it.
  abbrev pub again : Job
  again = failed_once job

  pub deliver_fails :
      (w' : World S) (e : Error)
      → Runs
      → call handler job started ≡ (err e, w')
      → deliver store traits retry sleep publish event handler job w
        ≡ on_failure store traits retry sleep publish event again w'
  deliver_fails w' e runs h = deliver_runs runs ∙ rw h refl
