-- ===== src/Broker/Redis/Reports.antt =====
-- RedisBroker.ts: what is logged of an outage, and a broker that is connected again.
use queueway.Broker.Redis.Polling.{
  Poll, polled, rejected, garbled, is_connection_error, RedisBroker, poll_loop, check_health,
  publish, disconnect, connect, subscribe, ready, asked, errored, Reports, taken, ClientEvent,
  handled, on_client, pause_polling, on_clients, rounds, round, Line, Loop, count_lines, paused,
  resumed, on_error, resume_polling,
}
use queueway.Base.{
  inr, err, none, some, [], ok, ◌∷◌, inl, Bool-cases, Option, arith, Result, refl, ◌≡◌, ◌+◌, Bool,
  true, false, String, List, Error, if◌then◌else◌,
}
use queueway.Engine.Delivery.{Handler}
use queueway.Engine.World.{enqueue, World}
use queueway.Types.{up, Job}
use queueway.Broker.Redis.{brpop, poll_once}

abbrev is_paused : Line → Bool
is_paused paused = true
is_paused _ = false

abbrev is_resumed : Line → Bool
is_resumed resumed = true
is_resumed _ = false

-- As many ends as outages were logged, and one outage more while it lasts.
abbrev pub Balanced : Bool → List Line → Type 0
Balanced logged lines =
    count_lines is_paused lines ≡ count_lines is_resumed lines + (if logged then 1 else 0)

pause_polling-Balanced :
    {S : Type 0} (l : Loop S)
    → Balanced l.outage_logged l.lines
    → Balanced (pause_polling l).outage_logged (pause_polling l).lines
pause_polling-Balanced l h = ground (arith, h)

resume_polling-Balanced :
    {S : Type 0} (l : Loop S)
    → Balanced l.outage_logged l.lines
    → Balanced (resume_polling l).outage_logged (resume_polling l).lines
resume_polling-Balanced l h = ground (arith, h)

module _ {S : Type 0} (blames : Error → Bool) (event : String) (handler : Handler S) where
  on_error-Balanced :
      (connection : Bool) (l : Loop S)
      → Balanced l.outage_logged l.lines
      → Balanced (on_error connection l).outage_logged (on_error connection l).lines
  on_error-Balanced true l h = pause_polling-Balanced l h
  on_error-Balanced false l h = ground (arith, h)

  handled-Balanced :
      (r : Result (Unit {0})) (w : World S) (l : Loop S)
      → Balanced l.outage_logged l.lines
      → let l' = handled blames event handler (r, w) l in Balanced l'.outage_logged l'.lines
  handled-Balanced (ok _) w l h = h
  handled-Balanced (err e) w l h = on_error-Balanced (blames e) (record l { world = w }) h

  taken-Balanced :
      (o : Option (Job × List (String × Job))) (l : Loop S)
      → Balanced l.outage_logged l.lines
      → let l' = taken blames event handler o l in Balanced l'.outage_logged l'.lines
  taken-Balanced none l h = h
  taken-Balanced (some (job, left)) l h = handled-Balanced _ _ l h

  asked-Balanced :
      (poll : Poll) (reaches : Bool) (l : Loop S)
      → Balanced l.outage_logged l.lines
      → let l' = asked blames event handler poll reaches l in Balanced l'.outage_logged l'.lines
  asked-Balanced polled true l h =
      taken-Balanced (brpop event l.world.sent) (resume_polling l) (resume_polling-Balanced l h)
  asked-Balanced polled false l h = pause_polling-Balanced l h
  asked-Balanced (rejected e) _ l h = on_error-Balanced (is_connection_error e) l h
  asked-Balanced (garbled e) _ l h =
      on_error-Balanced (is_connection_error e) (resume_polling l) (resume_polling-Balanced l h)

  -- Whatever happens between the rounds of a polling loop, however its BRPOP ends, and whichever
  -- errors its handler throws, the loop has logged one more outage than ends of an outage if it is paused, and as
  -- many if it is not.
  pub rounds-Balanced :
      (others : List ((World S → World S) × Poll)) (l : Loop S)
      → Balanced l.outage_logged l.lines
      → let l' = rounds blames event handler others l in Balanced l'.outage_logged l'.lines
  unfolding rounds round
  rounds-Balanced [] l h = h
  rounds-Balanced ((o, poll) ∷ os) l h =
      rounds-Balanced os _
        (asked-Balanced poll (o l.world).accepting (record l { world = o l.world }) h)

  handled_world :
      (r : Result (Unit {0})) (w : World S) (l : Loop S)
      → (handled blames event handler (r, w) l).world ≡ w
  handled_world (ok _) w l = refl
  handled_world (err e) w l = ground arith

  taken_world :
      (o : Option (Job × List (String × Job))) (l : Loop S)
      → (taken blames event handler o l).world ≡ elim o [
        | none ↦ l.world
        | some (job, left) ↦ (handler job (record l.world { sent = left })).1
      ]
  taken_world none l = refl
  taken_world (some (job, left)) l = handled_world _ _ l

  asked_world :
      (reaches : Bool) (l : Loop S)
      → (asked blames event handler polled reaches l).world ≡ (
          if reaches
          then elim (brpop event l.world.sent) [
            | none ↦ l.world
            | some (job, left) ↦ (handler job (record l.world { sent = left })).1
          ]
          else l.world)
  asked_world true l = elim (Bool-cases l.outage_logged) [
    | inl e ↦ rw e (taken_world (brpop event l.world.sent) _)
    | inr e ↦ rw e (taken_world (brpop event l.world.sent) _)
  ]
  asked_world false l = ground arith

  -- What a round in which BRPOP ends as Redis is does to the world is what the model without logs says.
  round-poll_once :
      (l : Loop S) → (round blames event handler polled l).world ≡ poll_once event handler l.world
  unfolding round poll_once
  round-poll_once l = asked_world l.world.accepting l

-- The listeners of a client log one outage more than ends of it if the client is away, and as many if
-- it is not.
on_clients-Balanced :
    (es : List ClientEvent) (r : Reports)
    → Balanced r.reported r.lines
    → Balanced (on_clients es r).reported (on_clients es r).lines
unfolding on_clients on_client
on_clients-Balanced [] r h = h
on_clients-Balanced (errored ∷ es) r h = on_clients-Balanced es _ (ground (arith, h))
on_clients-Balanced (ready ∷ es) r h = on_clients-Balanced es _ (ground (arith, h))

-- A Redis broker that was disconnected and is connected again takes what is published, and reports
-- itself up while Redis answers, but the loop of a new subscription on it ends at once: whatever
-- there is in its list, nothing is taken.
pub restart_is_deaf :
    {S : Type 0} (blames : Error → Bool) (event : String) (handler : Handler S) (b : RedisBroker)
    (others : List ((World S → World S) × Poll)) (l : Loop S) (job : Job)
    → let b' = subscribe event (connect (disconnect b)) in
      (publish b' event job l.world ≡ enqueue event job l.world)
      × ((check_health true b').status ≡ up)
      × (poll_loop blames event handler b' others l ≡ l)
unfolding subscribe connect disconnect publish check_health poll_loop
restart_is_deaf blames event handler b others l job = (refl, refl, refl)
