-- ===== src/Broker/RabbitMq/Keeping/Recovery.antt =====
-- What a worker on RabbitMQ relies on when its store recovers jobs, and that SQLiteStore.ts does so.
use mathlib.Core.Option
use queueway.Base.{
  arith, ◌≡◌, ◌∙◌, ◌⊎◌, includes, map, keep, sym, ap, inl, inr, some, true, false, ok, refl,
  Bool-cases, Option-cases, Bool, List, Option, String,
}
use queueway.Types.{Job, JobStatus, RecoverOptions, pending, retrying, status_name}
use queueway.Store.Contract.{IStore, IsStore, handed_back}
use queueway.Store.Table.{find, find-map}
use queueway.Store.Sqlite.{
  SqliteStore, as_pending, is_stuck, reset_stuck, row_key, statuses_for, stuck_statuses,
}
use queueway.Store.Sqlite.Laws.{sqlite_store-IsStore}
use queueway.Store.Sqlite.Recovery.{handed-keep, recover_lem}
use queueway.Engine.World.{recover_options}
use queueway.Broker.RabbitMq.Verdicts.{rabbitmq_traits}

abbrev pub is_retrying : JobStatus → Bool
is_retrying retrying = true
is_retrying _ = false

-- A record after a recovery: it was there before, and is as it was, or is handed back; none is retrying.
abbrev pub Recovered : List Job → String → Option Job → Job → Type 0
Recovered jobs id before r =
    (r₀ : Job) × (before ≡ some r₀)
    × (r.id ≡ r₀.id)
    × (is_retrying r.status ≡ false)
    × ((r ≡ r₀) ⊎ (handed_back id jobs ≡ true))

-- A store that can be reached recovers under the options of a broker that keeps its messages.
abbrev pub Recovers : {S : Type 0} {store : IStore S} → IsStore store → Type 0
Recovers {S} {store} law =
    (s : S)
    → law.online s ≡ true
    → (jobs : List Job) × (s' : S) × (store.recover_stuck_jobs s (recover_options rabbitmq_traits)
        ≡ ok (jobs, s'))
      × (law.online s' ≡ true)
      × ((id : String) (r : Job) → law.find s' id ≡ some r → Recovered jobs id (law.find s id) r)

abbrev options : RecoverOptions
options = recover_options rabbitmq_traits

named_retrying :
    (st : JobStatus) → includes (status_name st) (stuck_statuses options) ≡ is_retrying st
unfolding statuses_for
named_retrying pending = refl
named_retrying retrying = refl
named_retrying _ = refl

stuck_only_retrying : (r : Job) → is_stuck options r ≡ is_retrying r.status
stuck_only_retrying r = named_retrying r.status

Recovered-row :
    (rs : List Job) (id : String) (r : Job)
    → Option.map (reset_stuck options) (find row_key id rs) ≡ some r
    → Recovered (map as_pending (keep (is_stuck options) rs)) id (find row_key id rs) r
Recovered-row rs id r e = elim (Option-cases (find row_key id rs)) [
  | inl gone ↦ absurd (ground (arith, gone, e))
  | inr (r₀, found) ↦
      let reset : r ≡ reset_stuck options r₀ = ground (arith, found, e) in
      elim (Bool-cases (is_stuck options r₀)) [
        | inl stuck ↦ (
          r₀,
          found,
          ap (λ (x : Job). x.id) reset ∙ rw stuck refl,
          ap (λ (x : Job). is_retrying x.status) reset ∙ rw stuck refl,
          inr (handed-keep options id rs r₀ found stuck),
        )
        | inr kept ↦
            let same : r ≡ r₀ = reset ∙ rw kept refl in
            (
              r₀,
              found,
              ap (λ (x : Job). x.id) same,
              ap (λ (x : Job). is_retrying x.status) same ∙ sym (stuck_only_retrying r₀) ∙ kept,
              inl same,
            )
      ]
]

-- SQLiteStore.ts: the rows that were retrying are pending and handed back, all others stay.
pub sqlite_store-Recovers : Recovers (sqlite_store-IsStore).0
sqlite_store-Recovers s o =
    let (law, view, up, _) = sqlite_store-IsStore in
    let after : SqliteStore = record s { rows = map (reset_stuck options) s.rows } in
    (
      map as_pending (keep (is_stuck options) s.rows),
      after,
      recover_lem s options (sym (up s) ∙ o),
      up after ∙ sym (up s) ∙ o,
      λ id r e. rw (view s id) (
          Recovered-row s.rows id r (
            sym (find-map row_key id (reset_stuck options) s.rows (λ r. ground arith))
            ∙ sym (view after id)
            ∙ e)),
    )
