-- ===== src/Engine/Api/Outage.antt =====
-- What is lost when the broker cannot be reached at the end of a backoff (Queueway.ts, with the
-- PostgreSQL store).
use queueway.Store.Postgres.{
  forget_stale, row_key, recover_stuck_jobs, alone_on_the_store, is_false, postgres_store, job_of,
  JobRow, Database, Worker, statuses, may_claim,
}
use queueway.Base.{
  sym, ap, inr, inl, Option-cases, ◌∙◌, none, ok, not_connected, not, err, arith, some, true, ◌≡◌,
  false, List, includes, Bool, String, refl,
}
use queueway.Engine.World.{enqueue_refused, recover_options, World, BrokerTraits, enqueue}
use queueway.Store.Contract.{IsStore, IStore}
use queueway.Types.{patch, Job, RecoverOptions}
use queueway.Store.Table.{find, IsKeyed}
use queueway.Engine.Api.{pending}
use queueway.Engine.Delivery.{requeue}
use queueway.Engine.Delivery.Failures.{requeue_publishes}
use queueway.Retry.{retry_manager}
use queueway.Store.Postgres.Recovery.{find_recovered, recovered_parts, recovered_jobs, returned_key}
use queueway.Engine.Delivery.Outcomes.{marked, marked_lem}
use queueway.Store.Postgres.Laws.{postgres_store-IsStore}

statuses_without_pending : (b alone : Bool) → includes "pending" (statuses b false alone) ≡ false
unfolding statuses
statuses_without_pending true true = refl
statuses_without_pending true false = refl
statuses_without_pending false true = refl
statuses_without_pending false false = refl

-- Where pending jobs do not count as lost, no recovery by any worker takes a pending row.
pending_is_never_claimed :
    (me : String) (o : RecoverOptions) (ws : List Worker) (r : JobRow)
    → o.include_pending ≡ some false
    → r.job.status ≡ pending
    → may_claim me o ws r ≡ false
unfolding may_claim
pending_is_never_claimed me o ws r i p =
    rw (i, p)
      (ground (
        arith,
        statuses_without_pending (not (is_false o.include_processing)) (alone_on_the_store me ws),
      ))

never_handed_back :
    (me j : String) (o : RecoverOptions) (db : Database) (job : Job)
    → IsKeyed row_key db.jobs
    → job_of (find row_key j db.jobs) ≡ some job
    → job.status ≡ pending
    → o.include_pending ≡ some false
    → find returned_key j (recovered_jobs me o db) ≡ none
never_handed_back me j o db job k e p i = elim (Option-cases (find row_key j db.jobs)) [
  | inl missing ↦ absurd (ground (arith, missing, e))
  | inr (r, found) ↦
      let same : r.job ≡ job = ground (arith, found, e) in
      let spared =
        pending_is_never_claimed me o (forget_stale o db) r i
          (ap (λ (x : Job). x.status) same ∙ p) in
      find_recovered me j db o k ∙ rw found (rw spared refl)
]

-- A retry timer fires while the broker refuses messages: the job's record is pending.
refused_requeue :
    {S : Type 0} {store : IStore S} (law : IsStore store) (w : World S) (event : String)
    (job r : Job)
    → law.online w.store ≡ true
    → law.find w.store job.id ≡ some r
    → w.accepting ≡ false
    → let after = requeue store enqueue event job w in
      (after.0 ≡ err not_connected)
      × (after.1.sent ≡ w.sent)
      × (law.find after.1.store job.id ≡ some (patch pending (some job.attempts) r))
refused_requeue law w event job r o e a =
    let (q, f) =
      requeue_publishes law
        (record {
          retains_pending_jobs = true;
          guarantees_redelivery = true;
          acknowledges_delivery = true;
        })
        (retry_manager none none none) (λ _ w. w) enqueue event job w o e in
    let (_, _, s, _, _, acc) = marked_lem law job.id pending job.attempts w o in
    rw (q ∙ enqueue_refused event job (marked law job.id pending job.attempts w) (acc ∙ a))
      (refl, s, f)

-- On a PostgreSQL store and with a broker that retains pending jobs, a job that is re-queued after
-- its backoff while the broker refuses messages is left pending and unpublished, and no recovery
-- by any worker from that state hands it back.
pub refused_retry_is_stranded :
    (me other : String) (traits : BrokerTraits) (w : World Database) (event : String) (job r : Job)
    (jobs : List Job) (db : Database)
    → w.store.online ≡ true
    → job_of (find row_key job.id w.store.jobs) ≡ some r
    → w.accepting ≡ false
    → traits.retains_pending_jobs ≡ true
    → let after = (requeue (postgres_store me) enqueue event job w).1 in
      IsKeyed row_key after.store.jobs
      → recover_stuck_jobs other after.store (recover_options traits) ≡ ok (jobs, db)
      → (after.sent ≡ w.sent)
        × (job_of (find row_key job.id after.store.jobs)
            ≡ some (patch pending (some job.attempts) r))
        × (find returned_key job.id jobs ≡ none)
refused_retry_is_stranded me other traits w event job r jobs db o e a t k h =
    let after = (requeue (postgres_store me) enqueue event job w).1 in
    let (law, view, up, _) = postgres_store-IsStore me in
    let (_, s, f) =
      refused_requeue law w event job r (up w.store ∙ o) (view w.store job.id ∙ e) a in
    let pending_row = sym (view after.store job.id) ∙ f in
    let (_, ej, _) = recovered_parts other after.store db (recover_options traits) jobs h in
    (
      s,
      pending_row,
      rw ej (
          never_handed_back other job.id (recover_options traits) after.store
            (patch pending (some job.attempts) r) k pending_row refl (rw t refl)),
    )
