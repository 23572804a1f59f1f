-- ===== src/Store/Postgres/Claims.antt =====
-- Two workers of PostgreSQLStore.ts that recover one after the other, at the same instant.
use queueway.Base.{
  Bool-cases, inr, ◌∙◌, inl, Option-cases, includes, Bool, not, none, [], ok, eq_iff, arith, ◌∷◌,
  true, false, ◌==◌, some, ◌≡◌, List, String, refl,
}
use queueway.Store.Postgres.{
  forget_stale, release_row, is_false, recover_stuck_jobs, claim_row, is_fresh, row_key, worker_key,
  JobRow, Worker, statuses, Database, alone_on_the_store, may_claim,
}
use queueway.Types.{or_else, pending, Job, RecoverOptions}
use queueway.Store.Table.{IsKeyed-keep, IsKeyed-map, find, IsKeyed}
use queueway.Store.Postgres.Recovery.{
  find_claimed, find_recovered, fresh_is_kept, recovered_parts, recovered_db, recovered_jobs,
  returned_key,
}

not_alone :
    (me other : String) (ws : List Worker) (w : Worker)
    → find worker_key other ws ≡ some w
    → (other == me) ≡ false
    → alone_on_the_store me ws ≡ false
unfolding alone_on_the_store
not_alone me other [] w e d = cc
not_alone me other (x ∷ ws) w e d =
    ground (arith, not_alone me other ws w, eq_iff x.id other, eq_iff x.id me, eq_iff other me)

pending_not_stuck :
    (processing pending : Bool) → includes "pending" (statuses processing pending false) ≡ false
unfolding statuses
pending_not_stuck true true = refl
pending_not_stuck true _ = refl
pending_not_stuck false true = refl
pending_not_stuck false _ = refl

-- Where other workers live, a pending row is not taken.
pending_is_spared :
    (me : String) (o : RecoverOptions) (ws : List Worker) (r : JobRow)
    → alone_on_the_store me ws ≡ false
    → r.job.status ≡ pending
    → may_claim me o ws r ≡ false
unfolding may_claim
pending_is_spared me o ws r a p =
    rw (a, p)
      (ground (
        arith,
        pending_not_stuck (not (is_false o.include_processing)) (or_else o.include_pending true),
      ))

-- What was handed back under an id has left a released row.
taken_row :
    (me j : String) (db : Database) (o : RecoverOptions) (job : Job)
    → IsKeyed row_key db.jobs
    → find returned_key j (recovered_jobs me o db) ≡ some job
    → (r : JobRow) × (find row_key j (recovered_db me o db).jobs ≡ some (release_row db.now r))
taken_row me j db o job k e = elim (Option-cases (find row_key j db.jobs)) [
  | inl missing ↦ absurd (ground (arith, find_recovered me j db o k, missing, e))
  | inr (r, found) ↦ elim (Bool-cases (may_claim me o (forget_stale o db) r)) [
    | inl claimed ↦ (r, find_claimed me j db o ∙ rw found (rw claimed refl))
    | inr spared ↦ absurd (ground (arith, find_recovered me j db o k, found, spared, e))
  ]
]

pub recovered-IsKeyed :
    (me : String) (db : Database) (o : RecoverOptions)
    → IsKeyed row_key db.jobs
    → IsKeyed row_key (recovered_db me o db).jobs
recovered-IsKeyed me db o k =
    IsKeyed-map row_key (claim_row me o (forget_stale o db) db.now) db.jobs (λ r. ground arith) k

second_spares :
    (first second j : String) (db : Database) (o o' : RecoverOptions) (r : JobRow) (w : Worker)
    → IsKeyed row_key db.jobs
    → IsKeyed worker_key db.workers
    → (first == second) ≡ false
    → find worker_key first db.workers ≡ some w
    → is_fresh o db.now w ≡ true
    → is_fresh o' db.now w ≡ true
    → find row_key j (recovered_db first o db).jobs ≡ some (release_row db.now r)
    → find returned_key j (recovered_jobs second o' (recovered_db first o db)) ≡ none
second_spares first second j db o o' r w kj kw d ew f f' e =
    let db' = recovered_db first o db in
    let kept = fresh_is_kept first o db w kw ew f in
    let kw' : IsKeyed worker_key db'.workers =
      unfold forget_stale in IsKeyed-keep worker_key (is_fresh o db.now) db.workers kw in
    let kept' = fresh_is_kept first o' db' w kw' kept f' in
    let apart = not_alone second first (forget_stale o' db') w kept' d in
    let spared =
      pending_is_spared second o' (forget_stale o' db') (release_row db.now r) apart refl in
    find_recovered second j db' o' (recovered-IsKeyed first db o kj) ∙ rw e (rw spared refl)

-- Of two different workers that recover one after the other at the same time, the second is never
-- handed a job that the first was handed, if the first is registered with a heartbeat that is
-- fresh for both and keys are distinct.
pub claims_are_disjoint :
    (first second j : String) (db db' db'' : Database) (o o' : RecoverOptions)
    (taken others : List Job) (w : Worker) (job : Job)
    → IsKeyed row_key db.jobs
    → IsKeyed worker_key db.workers
    → (first == second) ≡ false
    → find worker_key first db.workers ≡ some w
    → is_fresh o db.now w ≡ true
    → is_fresh o' db.now w ≡ true
    → recover_stuck_jobs first db o ≡ ok (taken, db')
    → recover_stuck_jobs second db' o' ≡ ok (others, db'')
    → find returned_key j taken ≡ some job
    → find returned_key j others ≡ none
claims_are_disjoint first second j db db' db'' o o' taken others w job kj kw d ew f f' e e' m =
    let (_, ej, ed) = recovered_parts first db db' o taken e in
    let e'' : recover_stuck_jobs second (recovered_db first o db) o' ≡ ok (others, db'') =
      rw ed at e' in
    let (_, ej', _) = recovered_parts second (recovered_db first o db) db'' o' others e'' in
    let (r, row) = taken_row first j db o job kj (rw ej at m) in
    rw ej' (second_spares first second j db o o' r w kj kw d ew f f' row)
