-- ===== src/Broker/Redis/Polling.antt =====
-- RedisBroker.ts: the polling loop of a subscription as it is written, with what it logs and how long it
-- pauses, the listener of a client's errors, and the broker's life.
use queueway.Base.{
  ℕ, ◌+◌, Bool, true, false, ◌&&◌, String, Option, none, some, List, [], ◌∷◌, any, Result, ok, err,
  Error, not_connected, if◌then◌else◌,
}
use Prim.Native.String.{◌++◌}
use queueway.Broker.Redis.{brpop}
use queueway.Engine.World.{World, enqueue}
use queueway.Engine.Delivery.{Handler}
use queueway.Types.{Job, ComponentHealth, up, down, or_else}
use queueway.Server.Errors.{mentions}

-- What a thrown value tells of itself: `err.name`, `err.code`, `err.message`.
pub record Thrown : Type 0 where
  pub name : Option String
  pub code : Option String
  pub message : Option String

abbrev thrown_text : Thrown → String
thrown_text e = or_else e.name "" ++ " " ++ or_else e.code "" ++ " " ++ or_else e.message ""

abbrev connection_signs : List String
connection_signs =
    "MaxRetriesPerRequest" ∷ "ECONNREFUSED" ∷ "ECONNRESET" ∷ "ETIMEDOUT" ∷ "ENOTFOUND" ∷ "EPIPE"
    ∷ "Connection is closed" ∷ "Stream isn't writeable" ∷ []

unfoldable pub is_connection_error : Thrown → Bool
is_connection_error e = any (λ sign. mentions sign (thrown_text e)) connection_signs

-- What the loop logs: an outage, its end, or an error of another kind.
pub data Line : Type 0 where
  paused resumed failed : Line

-- How BRPOP ends in a round: as Redis and the list are, or it rejects with an error of its own, or what
-- it returns is no JSON, and `JSON.parse` throws.
pub data Poll : Type 0 where
  polled : Poll
  rejected garbled : Thrown → Poll

-- The loop: the world, its variable `outageLogged`, its lines, the newest first, and the time that it
-- has paused.
pub record Loop (S : Type 0) : Type 0 where
  pub world : World S
  pub outage_logged : Bool
  pub lines : List Line
  pub paused_ms : ℕ

module _ {S : Type 0} where
  -- After an answer of BRPOP.
  abbrev pub resume_polling : Loop S → Loop S
  resume_polling l =
      if l.outage_logged then record l { outage_logged = false; lines = resumed ∷ l.lines } else l

  abbrev pub pause_polling : Loop S → Loop S
  pause_polling l =
      let l' : Loop S = record l { paused_ms = l.paused_ms + 2000 } in
      if l.outage_logged then l' else record l' { outage_logged = true; lines = paused ∷ l.lines }

  -- The `catch` block, of an error that is one of the connection or not.
  abbrev pub on_error : Bool → Loop S → Loop S
  on_error true l = pause_polling l
  on_error false l = record l { lines = failed ∷ l.lines }

  -- `blames` tells for an error of the handler whether it reads as one of the connection.
  module _ (blames : Error → Bool) (event : String) (handler : Handler S) where
    abbrev pub handled : Result (Unit {0}) × World S → Loop S → Loop S
    handled (ok _, w) l = record l { world = w }
    handled (err e, w) l = on_error (blames e) (record l { world = w })

    abbrev pub taken : Option (Job × List (String × Job)) → Loop S → Loop S
    taken none l = l
    taken (some (job, left)) l = handled (handler job (record l.world { sent = left })) l

    -- A BRPOP that does not reach Redis rejects with an error of the connection.
    abbrev pub asked : Poll → (reaches : Bool) → Loop S → Loop S
    asked polled true l = taken (brpop event l.world.sent) (resume_polling l)
    asked polled false l = pause_polling l
    asked (rejected e) _ l = on_error (is_connection_error e) l
    asked (garbled e) _ l = on_error (is_connection_error e) (resume_polling l)

    -- One round of the loop.
    unfoldable pub round : Poll → Loop S → Loop S
    round poll l = asked poll l.world.accepting l

    -- Rounds, each with what others do to the world before it and how its BRPOP ends.
    unfoldable pub rounds : List ((World S → World S) × Poll) → Loop S → Loop S
    rounds [] l = l
    rounds ((others, poll) ∷ rest) l =
        rounds rest (round poll (record l { world = others l.world }))

abbrev pub count_lines : (Line → Bool) → List Line → ℕ
count_lines p [] = 0
count_lines p (x ∷ xs) = (if p x then 1 else 0) + count_lines p xs

-- The client's listeners, with their variable `reported`.
pub data ClientEvent : Type 0 where
  errored ready : ClientEvent

pub record Reports : Type 0 where
  pub reported : Bool
  pub lines : List Line

unfoldable pub on_client : ClientEvent → Reports → Reports
on_client errored r = if r.reported then r else record { reported = true; lines = paused ∷ r.lines }
on_client ready r = if r.reported then record { reported = false; lines = resumed ∷ r.lines } else r

unfoldable pub on_clients : List ClientEvent → Reports → Reports
on_clients [] r = r
on_clients (e ∷ es) r = on_clients es (on_client e r)

-- `publisher` and `subscribers` are the clients that were created.
pub record RedisBroker : Type 0 where
  pub publisher : Bool
  pub subscribers : List String
  pub polling : Bool

abbrev pub new_broker : RedisBroker
new_broker = record { publisher = false; subscribers = []; polling = true }

unfoldable pub connect : RedisBroker → RedisBroker
connect b = record b { publisher = true }

unfoldable pub subscribe : String → RedisBroker → RedisBroker
subscribe event b = record b { subscribers = event ∷ b.subscribers }

unfoldable pub disconnect : RedisBroker → RedisBroker
disconnect b = record b { polling = false }

unfoldable pub publish : {S : Type 0} → RedisBroker → String → Handler S
publish b event job w = if b.publisher then enqueue event job w else (err not_connected, w)

-- `pings` is whether Redis answers.
unfoldable pub check_health : (pings : Bool) → RedisBroker → ComponentHealth
check_health pings b = record { status = if b.publisher && pings then up else down; kind = none }

-- The loop of a subscription, while the broker stays as it is.
unfoldable pub poll_loop :
    {S : Type 0}
    → (Error → Bool)
    → String
    → Handler S
    → RedisBroker
    → List ((World S → World S) × Poll)
    → Loop S
    → Loop S
poll_loop blames event handler b others l =
    if b.polling then rounds blames event handler others l else l
