-- ===== src/Engine/Lifecycle/Quiet.antt =====
-- Queueway.ts: what loading job files and stopping an engine come to.
use queueway.Engine.Lifecycle.{
  registers, no_function, load_error, settle_start, load_jobs_entry_file, JobFiles, Runtime,
  Drivers, recovery_tick, load_jobs_file, stop_engine, start_engine, load_each, Module,
}
use queueway.Base.{
  err, Result, inr, inl, ok, Bool-cases, ◌∙◌, sym, ◌≡◌, ◌++◌, String, refl, true, false, some, [],
  ◌∷◌, List,
}
use queueway.Store.Contract.{IStore}
use queueway.Engine.Delivery.{Handler}
use queueway.Engine.World.{World, BrokerTraits}
use mathlib.Core.List.{append_assoc, append-nil}
use queueway.Engine.Api.{recover_and_publish, stop}

abbrev pub events_of : List Module → List String
events_of [] = []
events_of (registers events throws ∷ ms) = events ++ events_of ms
events_of (no_function ∷ ms) = events_of ms
events_of (load_error ∷ ms) = events_of ms

load_each_lem :
    (ms : List Module) (handlers : List String) → load_each ms handlers ≡ handlers ++ events_of ms
load_each_lem [] handlers = sym (append-nil handlers)
load_each_lem (registers events throws ∷ ms) handlers =
    load_each_lem ms (handlers ++ events) ∙ append_assoc handlers events (events_of ms)
load_each_lem (no_function ∷ ms) handlers = load_each_lem ms handlers
load_each_lem (load_error ∷ ms) handlers = load_each_lem ms handlers

module _ {S : Type 0} (store : IStore S) (publish : String → Handler S)
    (traits : BrokerTraits) where
  -- Whether the broker disconnects or rejects, a stopped engine has no backoff timer left, a
  -- recovery that is due then changes nothing, and stopping sends no message.
  pub stop_engine_quiets :
      (d : Drivers) (r : Runtime S)
      → ((stop_engine d r).1.world.timers ≡ [])
        × (recovery_tick store publish traits (stop_engine d r).1 ≡ (stop_engine d r).1)
        × ((stop_engine d r).1.world.sent ≡ r.world.sent)
  unfolding stop_engine recovery_tick stop
  stop_engine_quiets d r = elim (Bool-cases d.disconnects) [
    | inl e ↦ rw e (refl, refl, refl)
    | inr e ↦ rw e (refl, refl, refl)
  ]

  settle_start_lem :
      (r : Runtime S) (p : Result (Unit {0}) × World S)
      → r.recovery_timer ≡ false
      → p.0 ≡ ok tt
      → ((settle_start store publish traits r p).1.recovery_timer ≡ store.tracks_job_ownership)
        × ((settle_start store publish traits r p).1.handlers ≡ r.handlers)
  settle_start_lem r (ok u, w) t h = elim (Bool-cases store.tracks_job_ownership) [
    | inl o ↦ rw (t, o) (refl, refl)
    | inr o ↦ rw (t, o) (refl, refl)
  ]
  settle_start_lem r (err e, w) t h = cc

  start-settles :
      (d : Drivers) (files : JobFiles) (r : Runtime S)
      → d.initializes ≡ true
      → d.connects ≡ true
      → start_engine store publish traits d files r
        ≡ settle_start store publish traits
            (record r {
              store_open = true;
              connected = true;
              handlers = load_jobs_file files r.handlers;
            })
            (recover_and_publish store publish traits r.world)
  unfolding start_engine
  start-settles d files r i c = rw (i, c) refl

  loaded :
      (files : JobFiles) (modules : List Module) (handlers : List String)
      → files.skip ≡ false
      → files.directory ≡ some modules
      → load_jobs_file files handlers
        ≡ load_jobs_entry_file files.entry_js files.entry_cjs handlers ++ events_of modules
  unfolding load_jobs_file
  loaded files modules handlers s f =
      rw (s, f)
        (load_each_lem modules (load_jobs_entry_file files.entry_js files.entry_cjs handlers))

  -- An engine without a recovery interval whose store initializes, whose broker connects and whose
  -- recovery does not reject starts that interval exactly where the store tracks who owns a job,
  -- and, where job files are not skipped and there is a directory of them, subscribes what the
  -- entry file and then each file of the directory registers, although others fail.
  pub start_engine_lem :
      (d : Drivers) (files : JobFiles) (r : Runtime S) (modules : List Module)
      → d.initializes ≡ true
      → d.connects ≡ true
      → files.skip ≡ false
      → files.directory ≡ some modules
      → r.recovery_timer ≡ false
      → (recover_and_publish store publish traits r.world).0 ≡ ok tt
      → ((start_engine store publish traits d files r).1.recovery_timer
          ≡ store.tracks_job_ownership)
        × ((start_engine store publish traits d files r).1.handlers
            ≡ load_jobs_entry_file files.entry_js files.entry_cjs r.handlers ++ events_of modules)
  start_engine_lem d files r modules i c s f t e =
      let (timer, kept) =
        settle_start_lem
          (record r {
            store_open = true;
            connected = true;
            handlers = load_jobs_file files r.handlers;
          })
          (recover_and_publish store publish traits r.world) t e in
      rw (start-settles d files r i c) (timer, kept ∙ loaded files modules r.handlers s f)
