-- ===== src/Broker/Memory/Restarting.antt =====
-- The recovery of `start` with the in-memory broker and SQLiteStore.ts: every job that an earlier run
-- left behind is brought to an end.
use mathlib.Core.Option
use queueway.Base.{
  arith, ◌≡◌, ◌∙◌, ◌∷◌, [], All, includes, keep, map, some, true, false, ok, suc, refl, sym, ap,
  inl, inr, Bool-cases, Option-cases, List, String, ℕ,
}
use queueway.Types.{Job, JobStatus, RecoverOptions, pending, processing, retrying, status_name}
use queueway.Store.Contract.{IsStore, handed_back}
use queueway.Store.Table.{find, find-map}
use queueway.Store.Sqlite.{
  SqliteStore, as_pending, is_stuck, reset_stuck, row_key, sqlite_store, statuses_for,
  stuck_statuses,
}
use queueway.Store.Sqlite.Laws.{sqlite_store-IsStore}
use queueway.Store.Sqlite.Recovery.{handed-keep, recover_lem}
use queueway.Retry.{RetryManager}
use queueway.Engine.World.{World, implies, implies_lem, is_unfinished, recover_options}
use queueway.Engine.Delivery.{Handler}
use queueway.Engine.Api.{publish_all, recover_and_publish}
use queueway.Broker.Memory.{Subscriptions, in_memory_traits, publish}
use queueway.Broker.Memory.Copies.{forget}
use queueway.Broker.Memory.Settled.{IsSettled, Patient}
use queueway.Broker.Memory.Settling.{Subscribed, publish-Done}

abbrev pub law : IsStore sqlite_store
law = (sqlite_store-IsStore).0

abbrev options : RecoverOptions
options = recover_options in_memory_traits

named_unfinished :
    (st : JobStatus) → includes (status_name st) (stuck_statuses options) ≡ is_unfinished st
unfolding statuses_for
named_unfinished pending = refl
named_unfinished processing = refl
named_unfinished retrying = refl
named_unfinished _ = refl

unfinished_handed :
    (rows : List Job) (id : String) (r : Job)
    → Option.map (reset_stuck options) (find row_key id rows) ≡ some r
    → is_unfinished r.status ≡ true
    → handed_back id (map as_pending (keep (is_stuck options) rows)) ≡ true
unfinished_handed rows id r e u = elim (Option-cases (find row_key id rows)) [
  | inl gone ↦ absurd (ground (arith, gone, e))
  | inr (r₀, found) ↦ elim (Bool-cases (is_stuck options r₀)) [
    | inl stuck ↦ handed-keep options id rows r₀ found stuck
    | inr kept ↦
        let reset : r ≡ reset_stuck options r₀ = ground (arith, found, e) in
        let same : r ≡ r₀ = reset ∙ rw kept refl in
        let over : is_unfinished r.status ≡ false =
          ap (λ (x : Job). is_unfinished x.status) same ∙ sym (named_unfinished r₀.status) ∙ kept in
        cc (over, u)
  ]
]

module _ (retry : RetryManager) (sleep : ℕ → World SqliteStore → World SqliteStore)
    (patient : Patient law sleep) (subs : Subscriptions SqliteStore) where
  -- The broker's publish; the fuel is enough for every job.
  abbrev pub publishing : String → Handler SqliteStore
  publishing event = forget (publish sqlite_store retry sleep subs (suc retry.max_attempts) event)

  publish_all-IsSettled :
      (jobs : List Job) (w : World SqliteStore)
      → All (λ job. Subscribed law subs job.event_name) jobs
      → IsSettled law (λ id. handed_back id jobs) w
      → let p = publish_all publishing jobs w in (p.0 ≡ ok tt) × IsSettled law (λ _. false) p.1
  unfolding publish_all
  publish_all-IsSettled [] w a s = (refl, s)
  publish_all-IsSettled (job ∷ jobs) w (sub, subs_) s =
      let d =
        publish-Done law retry sleep patient subs job.event_name (λ id. handed_back id jobs) sub
          retry.max_attempts job w (omega arith) s in
      rw d.returned (publish_all-IsSettled jobs d.world subs_ d.settled)

  Subscribed-keep :
      (rows : List Job)
      → All (λ job. Subscribed law subs job.event_name) rows
      → All
          (λ job. Subscribed law subs job.event_name)
          (map as_pending (keep (is_stuck options) rows))
  Subscribed-keep [] a = tt
  Subscribed-keep (r ∷ rows) (a, as_) = elim (Bool-cases (is_stuck options r)) [
    | inl t ↦ rw t (a, Subscribed-keep rows as_)
    | inr t ↦ rw t (Subscribed-keep rows as_)
  ]

  -- After the recovery has changed the table, what is unfinished is handed back.
  reset-IsSettled :
      (w : World SqliteStore)
      → w.store.online ≡ true
      → IsSettled law
          (λ id. handed_back id (map as_pending (keep (is_stuck options) w.store.rows)))
          (record w {
            store = record {
              online = w.store.online;
              rows = map (reset_stuck options) w.store.rows;
            };
          })
  reset-IsSettled w o =
      let (_, view, up, _) = sqlite_store-IsStore in
      let after : SqliteStore = record {
        online = w.store.online;
        rows = map (reset_stuck options) w.store.rows;
      } in
      record {
        up = up after ∙ o;
        rest = λ id r e. unfinished_handed w.store.rows id r (
            sym (find-map row_key id (reset_stuck options) w.store.rows (λ r. ground arith))
            ∙ sym (view after id)
            ∙ e);
      }

  -- With the file reachable, whatever an earlier run left in it, the recovery of a start on the
  -- SQLite store and the in-memory broker resolves and leaves no job pending, processing or
  -- retrying, if every job's event has a handler, and neither the handlers nor what happens during
  -- a wait leave a job unfinished.
  pub start_finishes :
      (w : World SqliteStore) (id : String)
      → w.store.online ≡ true
      → All (λ row. Subscribed law subs row.event_name) w.store.rows
      → let p = recover_and_publish sqlite_store publishing in_memory_traits w in
        (p.0 ≡ ok tt) × (implies is_unfinished (find row_key id p.1.store.rows) false ≡ true)
  unfolding recover_and_publish
  start_finishes w id o a =
      let (_, view, _, _) = sqlite_store-IsStore in
      let jobs = map as_pending (keep (is_stuck options) w.store.rows) in
      let recovered : World SqliteStore = record w {
        store = record w.store { rows = map (reset_stuck options) w.store.rows };
      } in
      let (resolves, settled) =
        publish_all-IsSettled jobs recovered (Subscribed-keep w.store.rows a)
          (reset-IsSettled w o) in
      let end = (publish_all publishing jobs recovered).1 in
      rw (recover_lem w.store options o) (
        resolves,
        implies_lem is_unfinished (find row_key id end.store.rows) false
            (λ r e u. settled.rest id r (view end.store id ∙ e) u),
      )
