-- ===== src/Store/Postgres/Session.antt =====
-- PostgreSQLStore.ts: the life of a worker's store, from `initialize` with its heartbeat to `close`, beside
-- the recoveries of other workers.
use queueway.Base.{
  inr, inl, Bool-cases, ◌++◌, ◌≡◌, ◌∙◌, ◌≤◌, refl, arith, ℕ, ◌+◌, String, Bool, true, false, Option,
  none, some, List, [], ◌∷◌, Result, ok, err, if◌then◌else◌, eq_refl,
}
use queueway.Types.{Job, RecoverOptions}
use queueway.Store.Table.{
  IsKeyed-append, find-append, find, IsKeyed, IsKeyed-rewrite, IsKeyed-keep, find-rewrite,
  find-keep,
}
use queueway.Store.Postgres.{
  Database, Worker, worker_key, register_worker, beat, close, seen, recover_stuck_jobs,
  forget_stale, is_fresh,
}

pub record Session : Type 0 where
  pub database : Database
  pub timer : Bool
  pub pool_open : Bool

unfoldable pub start_heartbeat : Session → Session
start_heartbeat s = if s.timer then s else record s { timer = true }

abbrev pub registered : Result Database → Session → Result (Unit {0}) × Session
registered (ok db) s = (ok tt, start_heartbeat (record s { database = db }))
registered (err e) s = (err e, s)

-- The last steps of `initialize`.
unfoldable pub join_store : String → Session → Result (Unit {0}) × Session
join_store me s = registered (register_worker me s.database) s

-- A heartbeat that fails is logged.
abbrev pub beaten : Result Database → Session → Session
beaten (ok db) s = record s { database = db }
beaten (err e) s = s

unfoldable pub heartbeat_tick : String → Session → Session
heartbeat_tick me s = if s.timer then beaten (beat me s.database) s else s

unfoldable pub close_store : String → Session → Session
close_store me s = record { database = close me s.database; timer = false; pool_open = false }

-- What happens while the worker lives: time passes, another worker recovers, or the interval fires.
pub data PoolEvent : Type 0 where
  passes : ℕ → PoolEvent
  recovers : String → (pending processing : Option Bool) → PoolEvent
  ticks : PoolEvent

abbrev pub defaults : (pending processing : Option Bool) → RecoverOptions
defaults p q = record { include_pending = p; include_processing = q; stale_after_ms = none }

abbrev pub recovered_by : Result (List Job × Database) → Session → Session
recovered_by (ok (jobs, db)) s = record s { database = db }
recovered_by (err e) s = s

unfoldable pub live : String → List PoolEvent → Session → Session
live me [] s = s
live me (passes n ∷ es) s =
    live me es (record s { database = record s.database { now = s.database.now + n } })
live me (recovers other p q ∷ es) s =
    live me es (recovered_by (recover_stuck_jobs other s.database (defaults p q)) s)
live me (ticks ∷ es) s = live me es (heartbeat_tick me s)

-- No more than 30 seconds pass between two heartbeats.
abbrev pub IsPunctual : ℕ → List PoolEvent → Type 0
IsPunctual age [] = Unit
IsPunctual age (passes n ∷ es) = (age + n ≤ 30000) × IsPunctual (age + n) es
IsPunctual age (recovers other p q ∷ es) = IsPunctual age es
IsPunctual age (ticks ∷ es) = IsPunctual 0 es

-- The worker is registered, and was seen within that time.
abbrev pub IsSeen : String → ℕ → Database → Type 0
IsSeen me age db =
    (w : Worker) × (find worker_key me db.workers ≡ some w) × (db.now ≤ w.last_seen + age)

abbrev pub IsLive : String → ℕ → Session → Type 0
IsLive me age s =
    (s.timer ≡ true)
    × (s.database.online ≡ true)
    × IsKeyed worker_key s.database.workers
    × (age ≤ 30000)
    × IsSeen me age s.database

recover-IsLive :
    (me other : String) (p q : Option Bool) (age : ℕ) (s : Session)
    → IsLive me age s
    → IsLive me age (recovered_by (recover_stuck_jobs other s.database (defaults p q)) s)
unfolding recover_stuck_jobs forget_stale
recover-IsLive me other p q age s (t, o, k, a, (w, f, l)) =
    let o' = defaults p q in
    let fresh : is_fresh o' s.database.now w ≡ true = ground (arith, a, l) in
    rw o (
      t,
      refl,
      IsKeyed-keep worker_key (is_fresh o' s.database.now) s.database.workers k,
      a,
      (
        w,
        find-keep worker_key me (is_fresh o' s.database.now) s.database.workers k
            ∙ rw f (rw fresh refl),
        l,
      ),
    )

tick-IsLive :
    (me : String) (age : ℕ) (s : Session) → IsLive me age s → IsLive me 0 (heartbeat_tick me s)
unfolding heartbeat_tick beat
tick-IsLive me age s (t, o, k, a, (w, f, l)) =
    rw (t, o)
      (
        refl,
        refl,
        IsKeyed-rewrite worker_key me (seen s.database.now) s.database.workers (λ r. refl) k,
        omega arith,
        (
          seen s.database.now w,
          find-rewrite worker_key me me (seen s.database.now) s.database.workers (λ r. refl)
              ∙ rw (f, eq_refl me) refl,
          omega arith,
        ),
      )

live-IsLive :
    (me : String) (es : List PoolEvent) (age : ℕ) (s : Session)
    → IsLive me age s
    → IsPunctual age es
    → IsSeen me 30000 (live me es s).database
unfolding live
live-IsLive me [] age s (t, o, k, a, (w, f, l)) h = (w, f, omega (arith, a, l))
live-IsLive me (passes n ∷ es) age s (t, o, k, a, (w, f, l)) (b, h) =
    live-IsLive me es (age + n) _ (t, o, k, b, (w, f, omega (arith, l))) h
live-IsLive me (recovers other p q ∷ es) age s v h =
    live-IsLive me es age _ (recover-IsLive me other p q age s v) h
live-IsLive me (ticks ∷ es) age s v h = live-IsLive me es 0 _ (tick-IsLive me age s v) h

start_heartbeat-IsLive :
    (me : String) (s : Session)
    → s.database.online ≡ true
    → IsKeyed worker_key s.database.workers
    → IsSeen me 0 s.database
    → IsLive me 0 (start_heartbeat s)
unfolding start_heartbeat
start_heartbeat-IsLive me s o k f = elim (Bool-cases s.timer) [
  | inl e ↦ rw e (refl, o, k, omega arith, f)
  | inr e ↦ rw e (refl, o, k, omega arith, f)
]

join_store_lem :
    (me : String) (s : Session)
    → s.database.online ≡ true
    → IsKeyed worker_key s.database.workers
    → find worker_key me s.database.workers ≡ none
    → ((join_store me s).0 ≡ ok tt) × IsLive me 0 (join_store me s).1
unfolding join_store register_worker
join_store_lem me s o k n =
    let w : Worker = record { id = me; started_at = s.database.now; last_seen = s.database.now } in
    let db : Database = record s.database { workers = s.database.workers ++ w ∷ [] } in
    let seen_now : IsSeen me 0 db =
      (w, find-append worker_key w me s.database.workers n ∙ rw (eq_refl me) refl, omega arith) in
    rw (o, n)
      (
        refl,
        start_heartbeat-IsLive me (record s { database = db }) o
            (IsKeyed-append worker_key w s.database.workers k n) seen_now,
      )

-- A worker that joins a reachable store under a new id is registered, and was seen in the last 30
-- seconds, as long as no more than that passes between two of its heartbeats, whatever other
-- workers recover in between.
pub punctual_worker_lives :
    (me : String) (es : List PoolEvent) (s : Session)
    → s.database.online ≡ true
    → IsKeyed worker_key s.database.workers
    → find worker_key me s.database.workers ≡ none
    → IsPunctual 0 es
    → ((join_store me s).0 ≡ ok tt) × IsSeen me 30000 (live me es (join_store me s).1).database
punctual_worker_lives me es s o k n h =
    let (joined, v) = join_store_lem me s o k n in (joined, live-IsLive me es 0 _ v h)
